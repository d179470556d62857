-- ===== src/Transfer/Get/Searched.antt =====
-- What the search of a directory gives stands beside the destination: no name is cut off.
use retriever.Base.{ℕ, ◌+◌, ◌-◌, ◌*◌, ◌≤◌, ◌<◌, ◌≡◌, refl, ap, sym, ◌∙◌, subst, arith, ◌⊎◌}
use retriever.Base.{Bool, true, false, not, ◌&&◌, Bool-cases, inl, inr, List, [], ◌∷◌, ◌++◌, ◌==◌}
use retriever.Base.{
  append_assoc, length, length-append, length-take, take, drop, take_all, leb, ltb, length-drop,
  drop-drop,
}
use retriever.Base.{take-append-drop, bytes_eq, bytes_eq→eq, Option, some, none, if◌then◌else◌}
use retriever.Os.World.{Bytes}
use retriever.Transfer.Path.{last_slash, basename_of, split_dir, split_path, has_slash}
use retriever.Transfer.Path.{dir_max, max_name, path_max, token_size, suffix}
use retriever.Transfer.Partial.{is_partial, scan_entries, partial_path}
use retriever.Transfer.Get.Beside.{
  IsBeside, IsEnding, dotted, placed, split_path-parts, none-some, some_inj,
}

-- What is split off fits its buffers.
pub split_dir-fits :
    (o : Option ℕ) (path dir : Bytes) (n : ℕ) → split_dir o path n ≡ some dir → length dir < n
unfolding split_dir
split_dir-fits none path dir n e = elim (Bool-cases (ltb n 2)) [
  | inl small ↦ absurd (none-some (sym (rw small) ∙ e))
  | inr room ↦
      let same : (b'.' ∷ []) ≡ dir = some_inj (sym (rw room) ∙ e) in
      ground (arith, room, ap (λ (x : Bytes). length x) same)
]
split_dir-fits (some i) path dir n e =
    let dir_len : ℕ = if i == 0 then 1 else i in
    elim (Bool-cases (leb n dir_len)) [
      | inl small ↦ absurd (none-some (sym (rw small) ∙ e))
      | inr room ↦
          let same : take dir_len path ≡ dir = some_inj (sym (rw room) ∙ e) in
          ground (arith, room, ap (λ (x : Bytes). length x) same, length-take dir_len path)
    ]

pub base_fits :
    (path dir base : Bytes) (n m : ℕ) → split_path path n m ≡ some (dir, base) → length base < m
unfolding split_path
base_fits path dir base n m e = elim (Bool-cases (leb m (length (basename_of path)))) [
  | inl long ↦ absurd (none-some (sym (rw long) ∙ e))
  | inr fits ↦ rw (sym (split_path-parts path dir base n m e).1) (ground (arith, fits))
]

-- What the loop over the names holds: nothing yet, or a name that is one of a partial file.
abbrev pub Scanned : Bytes → ℕ × Bytes → Type 0
Scanned prefix r =
    (r.0 ≡ 0)
    ⊎ ((name : Bytes) × ((is_partial prefix name ≡ true) × (r.1 ≡ take (path_max - 1) name)))

pub scan_entries-Scanned :
    (prefix : Bytes) (names : List Bytes) (found : ℕ) (match : Bytes)
    → Scanned prefix (found, match)
    → Scanned prefix (scan_entries prefix names found match)
unfolding scan_entries
scan_entries-Scanned prefix [] found match h = h
scan_entries-Scanned prefix (name ∷ names) found match h =
    let next : Bool → Type 0 = λ hit. Scanned prefix (
      scan_entries prefix names (if hit then found + 1 else found)
        (if hit then take (path_max - 1) name else match)) in
    elim (Bool-cases (is_partial prefix name)) [
      | inl e ↦ subst next (sym e) (
          scan_entries-Scanned prefix names (found + 1) (take (path_max - 1) name)
            (inr (name, (e, refl))))
      | inr e ↦ subst next (sym e) (scan_entries-Scanned prefix names found match h)
    ]

-- A name of a partial file begins with the prefix, and its length is known.
is_partial-parts :
    (prefix name : Bytes)
    → is_partial prefix name ≡ true
    → (name ≡ prefix ++ drop (length prefix) name)
      × ((length name ≡ length prefix + token_size * 2 + 5)
          × (drop (length name - 5) name ≡ suffix))
unfolding is_partial
is_partial-parts prefix name e =
    let starts : bytes_eq (take (length prefix) name) prefix ≡ true = ground arith in
    let size : length name ≡ length prefix + token_size * 2 + 5 = ground arith in
    let ends : bytes_eq (drop (length name - 5) name) suffix ≡ true = ground arith in
    (
      sym (take-append-drop (length prefix) name)
          ∙ ap (λ (x : Bytes). x ++ drop (length prefix) name) (bytes_eq→eq _ prefix starts),
      (size, bytes_eq→eq _ suffix ends),
    )

-- Behind the prefix stand a token and the suffix.
is_partial-IsEnding :
    (prefix name : Bytes)
    → length name ≡ length prefix + token_size * 2 + 5
    → drop (length name - 5) name ≡ suffix
    → IsEnding (drop (length prefix) name)
is_partial-IsEnding prefix name size ends =
    let rest : Bytes = drop (length prefix) name in
    let long : length rest ≡ token_size * 2 + 5 =
      omega (arith, size, length-drop (length prefix) name) in
    let behind : drop (token_size * 2) rest ≡ suffix =
      drop-drop (length prefix) (token_size * 2) (length name - 5) name (omega (arith, size))
      ∙ ends in
    (
      take (token_size * 2) rest,
      (
        omega (arith, long, length-take (token_size * 2) rest),
        sym (take-append-drop (token_size * 2) rest)
            ∙ ap (λ (x : Bytes). take (token_size * 2) rest ++ x) behind,
      ),
    )

-- The directory is written where the destination has one.
path_placed :
    (dest dir match : Bytes) (o : Option ℕ)
    → split_dir o dest dir_max ≡ some dir
    → (if bytes_eq dir (b'.' ∷ []) && not (elim o as (λ _. Bool) [ none ↦ false | some i ↦ true ])
        then match
        else dir ++ (b'/' ∷ match))
      ≡ placed (elim o as (λ _. Bool) [ none ↦ false | some i ↦ true ]) dir match
unfolding split_dir
path_placed dest dir match none e = let same : (b'.' ∷ []) ≡ dir = cc in rw (sym same)
path_placed dest dir match (some i) e = elim (Bool-cases (bytes_eq dir (b'.' ∷ []))) [
  | inl f ↦ rw f
  | inr f ↦ rw f
]

-- The prefix that is searched for is not cut off, nor is the name that is found, nor its path.
pub partial_path-IsBeside :
    (dest dir base name : Bytes)
    → split_path dest dir_max (max_name + 1) ≡ some (dir, base)
    → is_partial (take (max_name + 7) (b'.' ∷ (base ++ (b'.' ∷ [])))) name ≡ true
    → IsBeside dest (partial_path dest dir (take (path_max - 1) name) path_max)
partial_path-IsBeside dest dir base name s e =
    let parts = split_path-parts dest dir base dir_max (max_name + 1) s in
    let small : length base < 256 = base_fits dest dir base dir_max (max_name + 1) s in
    let short : length dir < 512 = split_dir-fits (last_slash dest) dest dir dir_max parts.0 in
    let prefix : Bytes = b'.' ∷ (base ++ (b'.' ∷ [])) in
    let size : length prefix ≡ length base + 2 = omega (arith, length-append base (b'.' ∷ [])) in
    let whole : take (max_name + 7) prefix ≡ prefix =
      take_all (max_name + 7) prefix (omega (arith, small, size)) in
    let named =
      is_partial-parts prefix name (ap (λ (x : Bytes). is_partial x name) (sym whole) ∙ e) in
    let kept : take (path_max - 1) name ≡ name =
      take_all (path_max - 1) name (omega (arith, small, size, named.1.0)) in
    let rest : Bytes = drop (length prefix) name in
    let spelt : name ≡ dotted base rest =
      named.0 ∙ ap (λ (x : Bytes). b'.' ∷ x) (append_assoc base (b'.' ∷ []) rest) in
    let path : Bytes = placed (has_slash dest) dir name in
    let fits : length path ≤ path_max - 1 = elim (Bool-cases (has_slash dest)) [
      | inl f ↦ rw f (omega (arith, small, short, size, named.1.0, length-append dir (b'/' ∷ name)))
      | inr f ↦ rw f (omega (arith, small, size, named.1.0))
    ] in
    (
      dir,
      (
        base,
        (
          rest,
          (
            s,
            (
              is_partial-IsEnding prefix name named.1.0 named.1.1,
              rw kept (
                  ap (λ (x : Bytes). take (path_max - 1) x)
                    (path_placed dest dir name (last_slash dest) parts.0)
                  ∙ take_all (path_max - 1) path fits
                  ∙ ap (λ (x : Bytes). placed (has_slash dest) dir x) spelt),
            ),
          ),
        ),
      ),
    )
