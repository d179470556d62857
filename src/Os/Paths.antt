-- ===== src/Os/Paths.antt =====
-- How `resolve` reads a path that is put together from a directory and a name.
use retriever.Base.{suc, ◌≤◌, ◌≡◌, refl, ap, ◌∙◌, arith, false, Bool-cases, inl, inr}
use retriever.Base.{[], ◌∷◌, ◌++◌, append_assoc, append-nil, ◌==◌, length, length-append}
use retriever.Base.{bytes_eq, bytes_eq_refl, bytes_eq→eq}
use retriever.Os.World.{Bytes, Key}
use retriever.Os.Files.{named, components, key_eq}

-- No byte is a slash.
abbrev pub IsName : Bytes → Type 0
IsName [] = Unit
IsName (b ∷ bs) = ((b == b'/') ≡ false) × IsName bs

-- A name before the next byte is taken into the component that is being read.
pub components-name :
    (acc name path : Bytes)
    → IsName name
    → components acc (name ++ path) ≡ components (acc ++ name) path
unfolding components
components-name acc [] path h = rw append-nil
components-name acc (b ∷ bs) path (plain, h) = rw plain (
    components-name (acc ++ (b ∷ [])) bs path h
    ∙ ap (λ (a : Bytes). components a path) (append_assoc acc (b ∷ []) bs))

named_append :
    (name : Bytes) (rest more : Key) → named name (rest ++ more) ≡ named name rest ++ more
named_append name rest more = elim (Bool-cases (bytes_eq name [])) [
  | inl e ↦ rw e
  | inr e ↦ rw e (elim (Bool-cases (bytes_eq name (b'.' ∷ []))) [ inl f ↦ rw f | inr f ↦ rw f ])
]

-- A slash ends a component, and the names behind it follow.
pub components-slash :
    (acc dir path : Bytes)
    → components acc (dir ++ (b'/' ∷ path)) ≡ components acc dir ++ components [] path
unfolding components
components-slash acc [] path = named_append acc [] (components [] path)
components-slash acc (b ∷ bs) path = elim (Bool-cases (b == b'/')) [
  | inl e ↦ rw e (
      ap (λ (ks : Key). named acc ks) (components-slash [] bs path)
      ∙ named_append acc (components [] bs) (components [] path))
  | inr e ↦ rw e (components-slash (acc ++ (b ∷ [])) bs path)
]

-- The first component of a path is at least as long as what is read of it, two bytes or more.
pub components-long :
    (acc path : Bytes)
    → 2 ≤ length acc
    → (name : Bytes) × ((rest : Key) × ((components acc path ≡ name ∷ rest)
          × (length acc ≤ length name)))
unfolding components
components-long (a ∷ b ∷ bs) [] h = (a ∷ b ∷ bs, ([], (ground arith, omega arith)))
components-long [] path h = absurd (omega arith)
components-long (a ∷ []) path h = absurd (omega arith)
components-long (a ∷ b ∷ bs) (c ∷ path) h = elim (Bool-cases (c == b'/')) [
  | inl e ↦ (a ∷ b ∷ bs, (components [] path, (ground (arith, e), omega arith)))
  | inr e ↦
      let (name, (rest, (found, long))) =
        components-long ((a ∷ b ∷ bs) ++ (c ∷ [])) path
          (omega (arith, length-append (a ∷ b ∷ bs) (c ∷ []))) in
      (name, (rest, (rw e found, omega (arith, long, length-append (a ∷ b ∷ bs) (c ∷ [])))))
]

pub key_eq_append : (k a b : Key) → key_eq (k ++ a) (k ++ b) ≡ key_eq a b
unfolding key_eq
key_eq_append [] a b = refl
key_eq_append (x ∷ k) a b = rw (bytes_eq_refl x) (key_eq_append k a b)

bytes_eq-longer : (x y : Bytes) → suc (length x) ≤ length y → bytes_eq x y ≡ false
bytes_eq-longer x y h = elim (Bool-cases (bytes_eq x y)) [
  | inl e ↦ absurd (omega (arith, h, ap (λ (s : Bytes). length s) (bytes_eq→eq x y e)))
  | inr e ↦ e
]

-- A place is not the one with a longer name.
pub key_eq-longer :
    (base name : Bytes) (rest : Key)
    → suc (length base) ≤ length name
    → key_eq (named base []) (name ∷ rest) ≡ false
unfolding key_eq
key_eq-longer base name rest h = elim (Bool-cases (bytes_eq base [])) [
  | inl e ↦ rw e
  | inr e ↦ rw e (elim (Bool-cases (bytes_eq base (b'.' ∷ []))) [
    | inl f ↦ rw f
    | inr f ↦ rw f (rw (bytes_eq-longer base name h))
  ])
]
