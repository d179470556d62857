-- ===== src/Transfer/Resuming.antt =====
-- The name that `rtrv_partial_name` makes is one that `rtrv_find_partial` finds.
use retriever.Base.{ℕ, zero, suc, ◌+◌, ◌-◌, ◌*◌, ◌≤◌, ◌≡◌, refl, ◌∙◌, ap, sym, arith}
use retriever.Base.{List, [], ◌∷◌, ◌++◌, some, length, length-append, take, drop, true, false, All}
use retriever.Base.{append_assoc, take-append, drop-append, take_all, bytes_eq_refl}
use retriever.Packing.Layout.{IsByte}
use retriever.Os.World.{Bytes}
use retriever.Sha256.Hex.{hex_loop, sha256_hex}
use retriever.Transfer.Path.{suffix, token_size, max_name, path_max, format_partial}
use retriever.Transfer.Partial.{is_partial, found_at, scan_entries, scan_token}
use retriever.Transfer.Token.{scan_token-sha256_hex}

length-hex_loop : (left i : ℕ) (digest : List ℕ) → length (hex_loop left i digest) ≡ left * 2
unfolding hex_loop
length-hex_loop zero i digest = refl
length-hex_loop (suc left) i digest = omega (arith, length-hex_loop left (suc i) digest)

pub length-sha256_hex : (digest : List ℕ) (n : ℕ) → length (sha256_hex digest n) ≡ n * 2
unfolding sha256_hex
length-sha256_hex digest n = length-hex_loop n 0 digest

-- The prefix that the search looks for, and a name with a token behind it.
abbrev pub prefix_of : Bytes → Bytes
prefix_of base = take (max_name + 7) (b'.' ∷ (base ++ (b'.' ∷ [])))

module _ (p t : Bytes) (sized : length t ≡ token_size * 2) where
  name_size : length (p ++ (t ++ suffix)) ≡ length p + token_size * 2 + 5
  name_size = omega (arith, length-append p (t ++ suffix), length-append t suffix, sized)

  suffix_behind : drop (length (p ++ (t ++ suffix)) - 5) (p ++ (t ++ suffix)) ≡ suffix
  suffix_behind =
      ap (λ (b : Bytes). drop (length (p ++ (t ++ suffix)) - 5) b) (sym (append_assoc p t suffix))
      ∙ drop-append _ (p ++ t) suffix (omega (arith, name_size, length-append p t, sized))

  is_partial-made : is_partial p (p ++ (t ++ suffix)) ≡ true
  unfolding is_partial
  is_partial-made =
      rw
        (
          name_size,
          take-append (length p) p (t ++ suffix) refl,
          ap (λ (n : ℕ). drop (n - 5) (p ++ (t ++ suffix))) (sym name_size) ∙ suffix_behind,
          bytes_eq_refl p,
        )
        (ground arith)

  token_behind :
      drop (length (p ++ (t ++ suffix)) - 5 - token_size * 2) (p ++ (t ++ suffix)) ≡ t ++ suffix
  token_behind = drop-append _ p (t ++ suffix) (omega (arith, name_size))

name-split :
    (base t : Bytes)
    → format_partial false [] base t ≡ (b'.' ∷ (base ++ (b'.' ∷ []))) ++ (t ++ suffix)
unfolding format_partial
name-split base t = ap (λ (b : Bytes). b'.' ∷ b) (sym (append_assoc base (b'.' ∷ []) (t ++ suffix)))

prefix_of-whole :
    (base : Bytes) → length base ≤ max_name → prefix_of base ≡ b'.' ∷ (base ++ (b'.' ∷ []))
prefix_of-whole base short =
    take_all (max_name + 7) _ (omega (arith, length-append base (b'.' ∷ []), short))

-- The entry of the directory that an interrupted download leaves.
abbrev pub entry : Bytes → Bytes → Bytes
entry base digest = format_partial false [] base (sha256_hex digest token_size)

-- A directory with one such name.
scan_entries-made :
    (p name : Bytes)
    → is_partial p name ≡ true
    → length name ≤ path_max - 1
    → scan_entries p (name ∷ []) 0 [] ≡ (1, name)
unfolding scan_entries
scan_entries-made p name hit fits = rw (hit, take_all (path_max - 1) name fits) refl

-- An interrupted download is found again: where the directory has just the name that is made from
-- the base of the destination, which is at most as long as a name may be, and from a digest of at
-- least eight bytes, the search for that base finds one name, this one uncut, and reads from it the
-- first eight bytes of the digest as the token.
pub scan_entries-format_partial :
    (base digest path : Bytes) (size : ℕ)
    → length base ≤ max_name
    → All IsByte digest
    → token_size ≤ length digest
    → (scan_entries (prefix_of base) (entry base digest ∷ []) 0 [] ≡ (1, entry base digest))
      × (found_at path (entry base digest) size
          ≡ some (record { path = path; size = size; token = take token_size digest }))
scan_entries-format_partial base digest path size short bytes long =
    let t : Bytes = sha256_hex digest token_size in
    let p : Bytes = b'.' ∷ (base ++ (b'.' ∷ [])) in
    let sized : length t ≡ token_size * 2 = length-sha256_hex digest token_size in
    let read : scan_token token_size (t ++ suffix) ≡ some (take token_size digest) =
      scan_token-sha256_hex digest suffix token_size bytes long in
    rw (name-split base t) (
      rw (prefix_of-whole base short) (
          scan_entries-made p (p ++ (t ++ suffix)) (is_partial-made p t sized)
            (omega (arith, name_size p t sized, length-append base (b'.' ∷ []), short))),
      rw (found_at, token_behind p t sized, read) refl,
    )
