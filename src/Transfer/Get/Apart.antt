-- ===== src/Transfer/Get/Apart.antt =====
-- Places that no partial file can have: those whose last name does not end in ".part".
use retriever.Base.{◌≡◌, refl, ap, sym, ◌∙◌, subst, arith, Bool, true, false, Bool-cases, inl, inr}
use retriever.Base.{[], ◌∷◌, ◌++◌, append_assoc, ◌==◌, length, length-append, bytes_eq}
use retriever.Base.{bytes_eq→eq}
use retriever.Os.World.{Bytes, Key}
use retriever.Os.Files.{named, components, is_absolute, resolve, key_eq}
use retriever.Os.Lookup.{key_eq→eq}
use retriever.Os.Paths.{components-name}
use retriever.Transfer.Path.{suffix, has_slash}
use retriever.Transfer.Get.Beside.{placed, dotted}
use retriever.Transfer.Get.Untouched.{IsApart}

-- The last name of a place ends in ".part".
abbrev pub IsPart : Key → Type 0
IsPart k = (dirs : Key) × ((c : Bytes) × (k ≡ dirs ++ ((c ++ suffix) ∷ [])))

IsPart-cons : (name : Bytes) (k : Key) → IsPart k → IsPart (name ∷ k)
IsPart-cons name k (dirs, (c, e)) = (name ∷ dirs, (c, ap (λ (ks : Key). name ∷ ks) e))

IsPart-named : (name : Bytes) (k : Key) → IsPart k → IsPart (named name k)
IsPart-named name k p = elim (Bool-cases (bytes_eq name [])) [
  | inl e ↦ rw e p
  | inr e ↦ rw e (elim (Bool-cases (bytes_eq name (b'.' ∷ []))) [
    | inl f ↦ rw f p
    | inr f ↦ rw f (IsPart-cons name k p)
  ])
]

-- A name with the suffix is a component.
named-suffix : (c : Bytes) → named (c ++ suffix) [] ≡ (c ++ suffix) ∷ []
named-suffix c = elim (Bool-cases (bytes_eq (c ++ suffix) [])) [
  | inl e ↦ absurd (
      omega (
        arith,
        length-append c suffix,
        ap (λ (s : Bytes). length s) (bytes_eq→eq (c ++ suffix) [] e),
      ))
  | inr e ↦ rw e (elim (Bool-cases (bytes_eq (c ++ suffix) (b'.' ∷ []))) [
    | inl f ↦ absurd (
        omega (
          arith,
          length-append c suffix,
          ap (λ (s : Bytes). length s) (bytes_eq→eq (c ++ suffix) (b'.' ∷ []) f),
        ))
    | inr f ↦ rw f
  ])
]

components-IsPart : (acc path : Bytes) → IsPart (components acc (path ++ suffix))
unfolding components
components-IsPart acc [] = (
  [],
  (
    acc,
    components-name acc suffix [] (refl, (refl, (refl, (refl, (refl, tt))))) ∙ named-suffix acc,
  ),
)
components-IsPart acc (b ∷ path) = elim (Bool-cases (b == b'/')) [
  | inl e ↦ rw e (IsPart-named acc _ (components-IsPart [] path))
  | inr e ↦ rw e (components-IsPart (acc ++ (b ∷ [])) path)
]

resolve-IsPart : (path : Bytes) → IsPart (resolve (path ++ suffix))
unfolding resolve
resolve-IsPart path = elim (Bool-cases (is_absolute (path ++ suffix))) [
  | inl e ↦ rw e (IsPart-cons [] _ (components-IsPart [] path))
  | inr e ↦ rw e (components-IsPart [] path)
]

placed-suffix :
    (in_dir : Bool) (dir base token : Bytes)
    → (path : Bytes) × (placed in_dir dir (dotted base (token ++ suffix)) ≡ path ++ suffix)
placed-suffix true dir base token =
    let name : Bytes = dotted base token in
    (
      dir ++ (b'/' ∷ name),
      ap (λ (x : Bytes). dir ++ (b'/' ∷ x)) (sym (append_assoc (b'.' ∷ base) (b'.' ∷ token) suffix))
          ∙ sym (append_assoc dir (b'/' ∷ name) suffix),
    )
placed-suffix false dir base token =
    (dotted base token, sym (append_assoc (b'.' ∷ base) (b'.' ∷ token) suffix))

-- No partial file stands at a place whose last name does not end in ".part".
pub other-IsApart : (dest : Bytes) (k : Key) → ¬ (IsPart k) → IsApart dest k
other-IsApart dest k other p (dir, (base, (rest, (s, ((token, (long, ending)), at))))) =
    let (path, spelt) = placed-suffix (has_slash dest) dir base token in
    let whole : p ≡ path ++ suffix =
      at ∙ ap (λ (r : Bytes). placed (has_slash dest) dir (dotted base r)) ending ∙ spelt in
    elim (Bool-cases (key_eq k (resolve p))) [
      | inl e ↦ absurd (
          other (
            subst IsPart (sym (key_eq→eq k (resolve p) e ∙ ap (λ (x : Bytes). resolve x) whole))
              (resolve-IsPart path)))
      | inr e ↦ e
    ]
