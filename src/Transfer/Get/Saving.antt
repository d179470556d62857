-- ===== src/Transfer/Get/Saving.antt =====
-- The finished file: how it is hashed, and what is published.
use retriever.Base.{◌≡◌, sym, ◌∙◌, ap}
use retriever.Base.{Bool-cases, inl, inr}
use retriever.Base.{some, bytes_eq, bytes_eq→eq, List}
use retriever.Os.World.{Bytes, Key, Node, regular}
use retriever.Os.Program.{Run, ok, err, waits, draw}
use retriever.Os.Files.{lookup, resolve, rename, remove}
use retriever.Os.Lookup.{lookup-insert}
use retriever.Os.Triples.{Settles}
use retriever.Os.Triples.{Triple, Lands, Ends, Anything, Contract-Anything, Contract-then}
use retriever.Os.Triples.{Contract-if, Contract-on_error, Contract-given, Contract-refuse}
use retriever.Os.Triples.{Contract-said}
use retriever.Sha256.Padding.{sha256}
use retriever.Sha256.File.{sha256_file}
use retriever.Sha256.Reading.{HashOf, SameFiles, sha256_file-HashOf}
use retriever.Transfer.Get.{publish}
use retriever.Transfer.Get.Appending.{Holds}

regular_inj : {c d : Bytes} → some (regular c) ≡ some (regular d) → c ≡ d
regular_inj e = cc

Lands-Hashed :
    (k : Key) (c : Bytes) (files : List (Key × Node)) (r : Run Bytes)
    → lookup k files ≡ some (regular c)
    → Ends (HashOf k files) (SameFiles files) r
    → Lands (λ digest w. (digest ≡ sha256 c) × Holds k c w) Anything r
Lands-Hashed k c files (ok digest w) held (same, (d, (stored, hashed))) = (
  hashed ∙ ap (λ (b : Bytes). sha256 b) (regular_inj (sym stored ∙ held)),
  ap (λ (fs : List (Key × Node)). lookup k fs) same ∙ held,
)
Lands-Hashed k c files (err w) held l = tt
Lands-Hashed k c files (waits w) held l = absurd l

pub sha256_file-Holds :
    (path c : Bytes)
    → Triple
        (Holds (resolve path) c)
        (sha256_file path)
        (λ digest w. (digest ≡ sha256 c) × Holds (resolve path) c w)
        Anything
sha256_file-Holds path c = record {
  runs = λ w held.
      Lands-Hashed (resolve path) c w.files (sha256_file path w) held (sha256_file-HashOf path w);
}

-- A file that is renamed stands at the new place as it was.
rename-Holds :
    {F : Type 0} (fact : F) (old new c : Bytes)
    → Triple (Holds (resolve old) c) (rename old new) (λ _ w. F × Holds (resolve new) c w) Anything
unfolding rename
rename-Holds fact old new c = record {
  runs = λ w held. elim (Bool-cases (draw w.faults)) [
    | inl e ↦ rw (e, Settles) tt
    | inr e ↦ rw (e, Settles) (rw held (fact, lookup-insert _ _ _))
  ];
}

-- Only a file with the announced hash takes the place of the destination.
pub publish-Holds :
    (partial dest actual digest c : Bytes)
    → Triple
        (λ w. (actual ≡ sha256 c) × Holds (resolve partial) c w)
        (publish partial dest actual digest)
        (λ _ w. (digest ≡ sha256 c) × Holds (resolve dest) c w)
        Anything
unfolding publish
publish-Holds partial dest actual digest c = Contract-given (λ hashed.
    Contract-if (bytes_eq actual digest)
      (λ e.
        Contract-on_error (rename-Holds (sym (bytes_eq→eq actual digest e) ∙ hashed) partial dest c)
          Contract-said)
      (λ e. Contract-then (Contract-Anything (remove partial)) Contract-refuse))
