-- ===== src/Transfer/Get/Beside.antt =====
-- Where partial files stand: beside the destination, under names that are never its own.
use retriever.Base.{ℕ, zero, suc, ◌+◌, ◌≡◌, refl, ap, sym, ◌∙◌, subst, arith, Bool, true, false}
use retriever.Base.{Bool-cases, inl, inr, [], ◌∷◌, ◌++◌, ◌==◌, append-nil, length, length-append}
use retriever.Base.{get_or, take, drop, leb, Option, some, none, if◌then◌else◌}
use retriever.Os.World.{Bytes}
use retriever.Os.Files.{named, components, is_absolute, resolve, key_eq}
use retriever.Os.Paths.{IsName, components-name, components-slash, components-long}
use retriever.Os.Paths.{key_eq_append, key_eq-longer}
use retriever.Transfer.Path.{last_slash, basename_of, split_dir, paired, split_path, has_slash}
use retriever.Transfer.Path.{dir_max, max_name, token_size, suffix}
use retriever.Base.{◌*◌}

-- ".<base>.<rest>", in the directory where the destination has one.
abbrev pub dotted : Bytes → Bytes → Bytes
dotted base rest = (b'.' ∷ base) ++ (b'.' ∷ rest)

abbrev pub placed : Bool → Bytes → Bytes → Bytes
placed in_dir dir name = if in_dir then dir ++ (b'/' ∷ name) else name

-- What stands behind the name of the destination in that of a partial file: 16 bytes for the token,
-- and ".part".
abbrev pub IsEnding : Bytes → Type 0
IsEnding rest = (token : Bytes) × ((length token ≡ token_size * 2) × (rest ≡ token ++ suffix))

-- The path of a partial file of `dest`.
abbrev pub IsBeside : Bytes → Bytes → Type 0
IsBeside dest p =
    (dir : Bytes) × ((base : Bytes) × ((rest : Bytes) × ((split_path dest dir_max (max_name + 1)
            ≡ some (dir, base))
          × (IsEnding rest × (p ≡ placed (has_slash dest) dir (dotted base rest))))))

-- What the last slash says of a path.
abbrev Split : Bytes → Option ℕ → Type 0
Split path none = IsName path
Split path (some i) =
    (path ≡ take i path ++ (b'/' ∷ drop (suc i) path)) × IsName (drop (suc i) path)

last_slash-Split : (path : Bytes) → Split path (last_slash path)
unfolding last_slash
last_slash-Split [] = tt
last_slash-Split (b ∷ path) = longer (last_slash path) (last_slash-Split path)
  where
    longer :
        (o : Option ℕ)
        → Split path o
        → Split (b ∷ path) (elim o as (λ _. Option ℕ) [
          | some i ↦ some (suc i)
          | none ↦ if b == b'/' then some 0 else none
        ])
    longer (some i) (e, name) = (ap (λ (p : Bytes). b ∷ p) e, name)
    longer none name = elim (Bool-cases (b == b'/')) [
      | inl e ↦ rw e (ground arith, name)
      | inr e ↦ rw e (e, name)
    ]

pub none-some : {A : Type 0} {x : A} → none ≡ some x → ⊥
none-some e = cc

pub some_inj : {x y : Bytes} → some x ≡ some y → x ≡ y
some_inj e = cc

paired_inj :
    (o : Option Bytes) (b dir base : Bytes)
    → paired o b ≡ some (dir, base)
    → (o ≡ some dir) × (b ≡ base)
paired_inj none b dir base e = absurd cc
paired_inj (some d) b dir base e = (cc, cc)

-- What `rtrv_split_path` fills in.
pub split_path-parts :
    (path dir base : Bytes) (n m : ℕ)
    → split_path path n m ≡ some (dir, base)
    → (split_dir (last_slash path) path n ≡ some dir) × (basename_of path ≡ base)
unfolding split_path
split_path-parts path dir base n m e = elim (Bool-cases (leb m (length (basename_of path)))) [
  | inl long ↦ absurd cc
  | inr fits ↦ paired_inj _ _ dir base (sym (rw fits) ∙ e)
]

base_named : (base : Bytes) → IsName base → components [] base ≡ named base []
unfolding components
base_named base name =
    ap (λ (b : Bytes). components [] b) (sym (append-nil base)) ∙ components-name [] base [] name

names_apart :
    (base rest : Bytes)
    → IsName base
    → key_eq (components [] base) (components [] (dotted base rest)) ≡ false
unfolding components
names_apart base rest name =
    let (first, (more, (found, long))) =
      components-long ((b'.' ∷ base) ++ (b'.' ∷ [])) rest
        (omega (arith, length-append (b'.' ∷ base) (b'.' ∷ []))) in
    rw (base_named base name, components-name [] (b'.' ∷ base) (b'.' ∷ rest) (refl, name), found)
      (key_eq-longer base first more (omega (arith, long, length-append (b'.' ∷ base) (b'.' ∷ []))))

-- The same, within a directory.
in_dir_apart :
    (d : ℕ) (ds base rest : Bytes)
    → IsName base
    → key_eq (resolve ((d ∷ ds) ++ (b'/' ∷ base))) (resolve ((d ∷ ds) ++ (b'/' ∷ dotted base rest)))
      ≡ false
unfolding resolve is_absolute key_eq
in_dir_apart d ds base rest name =
    let apart : key_eq (components [] ((d ∷ ds) ++ (b'/' ∷ base)))
          (components [] ((d ∷ ds) ++ (b'/' ∷ dotted base rest)))
        ≡ false =
      rw (components-slash [] (d ∷ ds) base, components-slash [] (d ∷ ds) (dotted base rest))
        (key_eq_append (components [] (d ∷ ds)) _ _ ∙ names_apart base rest name) in
    elim (Bool-cases (d == b'/')) [ inl e ↦ rw e apart | inr e ↦ rw e apart ]

-- A relative name.
bare_apart :
    (base rest : Bytes) → IsName base → key_eq (resolve base) (resolve (dotted base rest)) ≡ false
unfolding resolve is_absolute
bare_apart [] rest name = names_apart [] rest name
bare_apart (b ∷ bs) rest (plain, name) = rw plain (names_apart (b ∷ bs) rest (plain, name))

-- A name at the root.
root_apart :
    (base rest : Bytes)
    → IsName base
    → key_eq (resolve (b'/' ∷ base)) (resolve ((b'/' ∷ []) ++ (b'/' ∷ dotted base rest))) ≡ false
unfolding resolve is_absolute key_eq components
root_apart base rest name = names_apart base rest name

split_dir-eq :
    (j : ℕ) (path : Bytes)
    → split_dir (some (suc j)) path dir_max
      ≡ (if leb dir_max (suc j) then none else some (take (suc j) path))
unfolding split_dir
split_dir-eq j path = let nonzero : (suc j == 0) ≡ false = ground arith in rw nonzero

-- The directory that is split off, as `dir` and as it stands in the path.
parted_apart :
    (dest dir rest : Bytes) (i : ℕ)
    → Split dest (some i)
    → split_dir (some i) dest dir_max ≡ some dir
    → key_eq (resolve dest) (resolve (dir ++ (b'/' ∷ dotted (drop (suc i) dest) rest))) ≡ false
unfolding split_dir
parted_apart [] dir rest i (e, name) s = absurd (
    omega (
      arith,
      ap (λ (x : Bytes). length x) e,
      length-append {A = ℕ} (take i []) (b'/' ∷ drop (suc i) []),
    ))
parted_apart (d ∷ ds) dir rest zero (e, name) s =
    let same : (d ∷ []) ≡ dir = cc in
    subst
      (λ (x : Bytes). key_eq (resolve (d ∷ ds)) (resolve (x ++ (b'/' ∷ dotted ds rest))) ≡ false)
      same
      (subst
        (λ (x : ℕ).
          key_eq (resolve (x ∷ ds)) (resolve ((x ∷ []) ++ (b'/' ∷ dotted ds rest))) ≡ false)
        (sym (ap (λ (x : Bytes). get_or x 0 0) e)) (root_apart ds rest name))
parted_apart (d ∷ ds) dir rest (suc j) (e, name) s =
    let base : Bytes = drop (suc j) ds in
    elim (Bool-cases (leb dir_max (suc j))) [
      | inl long ↦ absurd (none-some (sym (split_dir-eq j (d ∷ ds) ∙ rw long) ∙ s))
      | inr fits ↦
          let same : (d ∷ take j ds) ≡ dir =
            some_inj (sym (split_dir-eq j (d ∷ ds) ∙ rw fits) ∙ s) in
          subst
            (λ (x : Bytes).
              key_eq (resolve (d ∷ ds)) (resolve (x ++ (b'/' ∷ dotted base rest))) ≡ false)
            same
            (subst
              (λ (x : Bytes).
                key_eq (resolve x) (resolve ((d ∷ take j ds) ++ (b'/' ∷ dotted base rest))) ≡ false)
              (sym e) (in_dir_apart d (take j ds) base rest name))
    ]

-- Nothing that stands where the partial files do stands at the destination.
pub dest_apart : (dest p : Bytes) → IsBeside dest p → key_eq (resolve dest) (resolve p) ≡ false
unfolding basename_of
dest_apart dest p (dir, (base, (rest, (s, (_, e))))) =
    let (parted, named) = split_path-parts dest dir base dir_max (max_name + 1) s in
    rw e (
      subst
        (λ (b : Bytes).
          key_eq (resolve dest) (resolve (placed (has_slash dest) dir (dotted b rest))) ≡ false)
        named (by_slash (last_slash dest) (last_slash-Split dest) parted))
  where
    by_slash :
        (o : Option ℕ)
        → Split dest o
        → split_dir o dest dir_max ≡ some dir
        → key_eq (resolve dest) (
            resolve (
              placed
                (elim o as (λ _. Bool) [ none ↦ false | some i ↦ true ])
                dir
                (dotted
                  (elim o as (λ _. Bytes) [ none ↦ dest | some i ↦ drop (suc i) dest ])
                  rest)))
          ≡ false
    by_slash none name parted = bare_apart dest rest name
    by_slash (some i) split parted = parted_apart dest dir rest i split parted
