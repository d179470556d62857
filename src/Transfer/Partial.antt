-- ===== src/Transfer/Partial.antt =====
-- c/transfer.c, `rtrv_find_partial` and `file_exists`.
use retriever.Base.{ℕ, zero, suc, ◌+◌, ◌-◌, ◌*◌, ◌%◌, ◌^◌, Bool, true, false, not, ◌&&◌, ◌||◌}
use retriever.Base.{List, [], ◌∷◌, ◌++◌, ◌==◌, leb, Option, some, none, if◌then◌else◌}
use retriever.Base.{length, take, drop, bytes_eq}
use retriever.Os.World.{Bytes}
use retriever.Os.Program.{M, pure, fail, ◌>>=◌, ◌>>◌, attempt}
use retriever.Os.Files.{stat, node_size, open_dir, release}
use retriever.Transfer.Path.{dir_max, max_name, path_max, token_size, split_path, suffix, has_slash}

-- `stat(path, &st) == 0`
unfoldable pub file_exists : Bytes → M Bool
file_exists path = do
  found ← attempt (stat path)
  pure (elim found [ none ↦ false | some node ↦ true ])

-- What a call that returns 1 fills in; the call returns 0 with `none`, and -1 as a failure.
pub record Found : Type 0 where
  pub path : Bytes
  pub size : ℕ
  pub token : Bytes

-- <prefix><16 characters>.part
unfoldable pub is_partial : Bytes → Bytes → Bool
is_partial prefix name =
    (length name == length prefix + token_size * 2 + 5)
    && (bytes_eq (take (length prefix) name) prefix
        && bytes_eq (drop (length name - 5) name) suffix)

-- The loop over the directory: how many were found, and the last of them. The copy of a name into
-- `match` keeps what fits.
unfoldable pub scan_entries : Bytes → List Bytes → ℕ → Bytes → ℕ × Bytes
scan_entries prefix [] found match = (found, match)
scan_entries prefix (name ∷ names) found match =
    let hit = is_partial prefix name in
    scan_entries prefix names (if hit then found + 1 else found)
      (if hit then take (path_max - 1) name else match)

abbrev pub is_space : ℕ → Bool
is_space c = (c == b' ') || (leb 9 c && leb c 13)

unfoldable pub hex_value : ℕ → Option ℕ
hex_value c =
    if leb b'0' c && leb c b'9'
    then some (c - b'0')
    else if leb b'a' c && leb c b'f'
    then some (c - b'a' + 10)
    else if leb b'A' c && leb c b'F'
    then some (c - b'A' + 10)
    else none

abbrev head_value : Bytes → Option ℕ
head_value [] = none
head_value (c ∷ text) = hex_value c

-- A field of two characters: a sign and a digit, one digit, or two; "0x" alone is no number.
abbrev scan_digits : ℕ → Bytes → Option ℕ
scan_digits c text = elim (hex_value c) [
  | none ↦
      if c == b'+'
      then head_value text
      else if c == b'-'
      then elim (head_value text) [ none ↦ none | some d ↦ some ((2 ^ 32 - d) % 2 ^ 32) ]
      else none
  | some d ↦ elim (head_value text) [
    | some e ↦ some (16 * d + e)
    | none ↦
        if c == b'0' && (bytes_eq (take 1 text) (b'x' ∷ []) || bytes_eq (take 1 text) (b'X' ∷ []))
        then none
        else some d
  ]
]

-- `sscanf(text, "%2x", &value)`, which skips white space; `none` where it does not return 1.
unfoldable pub scan_hex : Bytes → Option ℕ
scan_hex [] = none
scan_hex (c ∷ text) = let rest = scan_hex text in if is_space c then rest else scan_digits c text

abbrev pub prefixed : ℕ → Option Bytes → Option Bytes
prefixed value none = none
prefixed value (some token) = some (value % 2 ^ 8 ∷ token)

-- The loop over the token's bytes, with `left` rounds to go.
unfoldable pub scan_token : ℕ → Bytes → Option Bytes
scan_token zero hex = some []
scan_token (suc left) hex = elim (scan_hex hex) [
  | none ↦ none
  | some value ↦ prefixed value (scan_token left (drop 2 hex))
]

-- The name with its directory, unless that is "." and `dest` has no slash.
abbrev pub partial_path : Bytes → Bytes → Bytes → ℕ → Bytes
partial_path dest dir match path_size =
    take (path_size - 1)
      (if bytes_eq dir (b'.' ∷ []) && not (has_slash dest) then match else dir ++ (b'/' ∷ match))

abbrev pub found_at : Bytes → Bytes → ℕ → Option Found
found_at path match size =
    elim (scan_token token_size (drop (length match - 5 - token_size * 2) match)) [
      | none ↦ none
      | some token ↦ some (record { path = path; size = size; token = token })
    ]

-- What follows once exactly one is found.
unfoldable pub inspect_partial : Bytes → Bytes → M (Option Found)
inspect_partial path match = do
  node ← attempt (stat path)
  pure (elim node [ none ↦ none | some node ↦ found_at path match (node_size node) ])

unfoldable pub find_in_dir : Bytes → ℕ → Bytes → Bytes → M (Option Found)
find_in_dir dest path_size dir base = do
  names ← open_dir dir
  let prefix = take (max_name + 7) (b'.' ∷ (base ++ (b'.' ∷ [])))
  let scanned = scan_entries prefix names 0 []
  release
  if scanned.0 == 1
      then inspect_partial (partial_path dest dir scanned.1 path_size) scanned.1
      else pure none

-- `rtrv_find_partial`
unfoldable pub find_partial : Bytes → ℕ → M (Option Found)
find_partial dest path_size = elim (split_path dest dir_max (max_name + 1)) [
  | none ↦ fail
  | some (dir, base) ↦ find_in_dir dest path_size dir base
]
