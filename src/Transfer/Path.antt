-- ===== src/Transfer/Path.antt =====
-- c/transfer.c, the splitting of paths and the name of a partial file.
use retriever.Base.{ℕ, suc, ◌+◌, Bool, true, false, [], ◌∷◌, ◌++◌, ◌==◌, ltb}
use retriever.Base.{leb, Option, some, none, if◌then◌else◌, length, take, drop}
use retriever.Os.World.{Bytes, path_too_long}
use retriever.Os.Program.{M, pure, fail, ◌>>◌, say}
use retriever.Sha256.Hex.{sha256_hex}

abbrev pub dir_max : ℕ
dir_max = 512

abbrev pub max_name : ℕ
max_name = 255

abbrev pub path_max : ℕ
path_max = 1024

abbrev pub token_size : ℕ
token_size = 8

-- `strrchr(path, '/')`, as an index.
unfoldable pub last_slash : Bytes → Option ℕ
last_slash [] = none
last_slash (b ∷ path) = elim (last_slash path) [
  | some i ↦ some (suc i)
  | none ↦ if b == b'/' then some 0 else none
]

-- `basename_of` of c/main.c, and `name` in `rtrv_split_path`.
unfoldable pub basename_of : Bytes → Bytes
basename_of path = elim (last_slash path) [ none ↦ path | some i ↦ drop (suc i) path ]

-- The directory part; `none` where it does not fit.
unfoldable pub split_dir : Option ℕ → Bytes → ℕ → Option Bytes
split_dir none path dir_size = if ltb dir_size 2 then none else some (b'.' ∷ [])
split_dir (some i) path dir_size =
    let dir_len = if i == 0 then 1 else i in
    if leb dir_size dir_len then none else some (take dir_len path)

abbrev pub paired : Option Bytes → Bytes → Option (Bytes × Bytes)
paired none base = none
paired (some dir) base = some (dir, base)

-- `rtrv_split_path`: the directory and the last component.
unfoldable pub split_path : Bytes → ℕ → ℕ → Option (Bytes × Bytes)
split_path path dir_size base_size =
    if leb base_size (length (basename_of path))
    then none
    else paired (split_dir (last_slash path) path dir_size) (basename_of path)

-- ".part"
abbrev pub suffix : Bytes
suffix = b'.' ∷ b'p' ∷ b'a' ∷ b'r' ∷ b't' ∷ []

abbrev pub has_slash : Bytes → Bool
has_slash path = elim (last_slash path) [ none ↦ false | some i ↦ true ]

-- "%s/.%s.%s.part", or without the directory.
unfoldable pub format_partial : Bool → Bytes → Bytes → Bytes → Bytes
format_partial in_dir dir base token =
    let name = (b'.' ∷ base) ++ ((b'.' ∷ token) ++ suffix) in
    if in_dir then dir ++ (b'/' ∷ name) else name

abbrev pub fitting : Bytes → ℕ → Bytes → M Bytes
fitting dest out_size out =
    if leb out_size (length out) then (say (path_too_long dest) >> fail) else pure out

-- `rtrv_partial_name`
unfoldable pub partial_name : Bytes → Bytes → ℕ → M Bytes
partial_name dest digest out_size = elim (split_path dest dir_max (max_name + 1)) [
  | none ↦ say (path_too_long dest) >> fail
  | some (dir, base) ↦
      fitting dest out_size
        (format_partial (has_slash dest) dir base (sha256_hex digest token_size))
]
