-- ===== src/Os/Lookup.antt =====
-- The laws of the file system's places: what `insert` and `erase` do to a `lookup`.
use retriever.Base.{◌≡◌, refl, ap, sym, ◌∙◌, true, false, Bool-cases, inl, inr, [], ◌∷◌}
use retriever.Base.{List, none, some, bytes_eq, bytes_eq_refl, bytes_eq→eq, arith}
use retriever.Os.World.{Key, Node}
use retriever.Os.Files.{key_eq, lookup, insert, erase}

pub key_eq_refl : (k : Key) → key_eq k k ≡ true
unfolding key_eq
key_eq_refl [] = refl
key_eq_refl (x ∷ xs) = rw (bytes_eq_refl x) (key_eq_refl xs)

pub key_eq→eq : (k j : Key) → key_eq k j ≡ true → k ≡ j
unfolding key_eq
key_eq→eq [] [] h = refl
key_eq→eq [] (y ∷ ys) h = absurd (ground arith)
key_eq→eq (x ∷ xs) [] h = absurd (ground arith)
key_eq→eq (x ∷ xs) (y ∷ ys) h = elim (Bool-cases (bytes_eq x y)) [
  | inl e ↦ rw (bytes_eq→eq x y e, key_eq→eq xs ys (ground arith))
  | inr e ↦ absurd (ground arith)
]

pub lookup-insert : (k : Key) (v : Node) (m : List (Key × Node)) → lookup k (insert k v m) ≡ some v
unfolding lookup insert
lookup-insert k v [] = rw (key_eq_refl k)
lookup-insert k v ((j, u) ∷ m) = elim (Bool-cases (key_eq k j)) [
  | inl e ↦ rw e (rw (key_eq_refl k))
  | inr e ↦ rw e (rw e (lookup-insert k v m))
]

pub lookup-insert_other :
    (k j : Key) (v : Node) (m : List (Key × Node))
    → key_eq k j ≡ false
    → lookup k (insert j v m) ≡ lookup k m
unfolding lookup insert
lookup-insert_other k j v [] h = rw h
lookup-insert_other k j v ((i, u) ∷ m) h = elim (Bool-cases (key_eq j i)) [
  | inl e ↦ rw e (rw (h, sym (ap (λ (x : Key). key_eq k x) (key_eq→eq j i e)) ∙ h))
  | inr e ↦ rw e (elim (Bool-cases (key_eq k i)) [
    | inl f ↦ rw f
    | inr f ↦ rw f (lookup-insert_other k j v m h)
  ])
]

pub lookup-erase_other :
    (k j : Key) (m : List (Key × Node)) → key_eq k j ≡ false → lookup k (erase j m) ≡ lookup k m
unfolding lookup erase
lookup-erase_other k j [] h = refl
lookup-erase_other k j ((i, u) ∷ m) h = elim (Bool-cases (key_eq j i)) [
  | inl e ↦
      rw e
        (rw (sym (ap (λ (x : Key). key_eq k x) (key_eq→eq j i e)) ∙ h) (lookup-erase_other k j m h))
  | inr e ↦
      rw e (elim (Bool-cases (key_eq k i)) [
        | inl f ↦ rw f
        | inr f ↦ rw f (lookup-erase_other k j m h)
      ])
]

pub lookup-erase : (k : Key) (m : List (Key × Node)) → lookup k (erase k m) ≡ none
unfolding lookup erase
lookup-erase k [] = refl
lookup-erase k ((j, u) ∷ m) = elim (Bool-cases (key_eq k j)) [
  | inl e ↦ rw e (lookup-erase k m)
  | inr e ↦ rw e (rw e (lookup-erase k m))
]
