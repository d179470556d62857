-- ===== src/Transfer/Get/Opening.antt =====
-- How the partial file is opened: empty, or with what it held.
use retriever.Base.{◌+◌, ◌≡◌, refl, ◌∙◌, ap, subst, Bool, true, false}
use retriever.Base.{Bool-cases, inl, inr}
use retriever.Base.{List, Option, some, none, []}
use retriever.Base.{if◌then◌else◌}
use retriever.Os.World.{World, Bytes, Key, Node, regular, special}
use retriever.Os.Program.{Run, ok, err, draw, drawn}
use retriever.Os.Files.{lookup, insert, resolve, open_write, kept, emptied}
use retriever.Os.Lookup.{lookup-insert}
use retriever.Os.Triples.{Settles}
use retriever.Os.Triples.{Triple, Lands, Anything}
use retriever.Transfer.Get.Incoming.{Comes}
use retriever.Transfer.Get.Appending.{Holds}

-- What a file that is appended to begins with.
abbrev pub contents : Option Node → Bytes
contents none = []
contents (some (regular c)) = c
contents (some (special size)) = []

-- What is in a file once it is opened.
abbrev pub prior : List (Key × Node) → Key → Bool → Bytes
prior files k append = if append then contents (lookup k files) else []

-- What is opened for writing is a regular file.
abbrev Opened : Bytes → Option Node → Type 0
Opened c none = Unit {0}
Opened c (some node) = node ≡ regular c

kept-Opened : (old : Option Node) → Opened (contents old) (kept old)
kept-Opened none = refl
kept-Opened (some (regular c)) = refl
kept-Opened (some (special size)) = tt

emptied-Opened : (old : Option Node) → Opened [] (emptied old)
emptied-Opened none = refl
emptied-Opened (some (regular c)) = refl
emptied-Opened (some (special size)) = tt

Lands-Opened :
    (k : Key) (c bytes : Bytes) (w : World) (o : Option Node)
    → Opened c o
    → Comes bytes w
    → Lands
        (λ _ w'. Holds k c w' × Comes bytes w')
        Anything
        (elim o as (λ _. Run (Unit {0})) [
          | none ↦ err (record w { faults = drawn w.faults })
          | some node ↦ ok tt (record w {
            faults = drawn w.faults;
            files = insert k node w.files;
            handles = w.handles + 1;
          })
        ])
Lands-Opened k c bytes w none f comes = tt
Lands-Opened k c bytes w (some node) e comes =
    (lookup-insert k node w.files ∙ ap (λ (n : Node). some n) e, comes)

-- A file that is appended to begins with what it held in `files`.
pub open_write-Holds :
    (path : Bytes) (append : Bool) (bytes : Bytes) (files : List (Key × Node))
    → Triple
        (λ w. Comes bytes w × (append ≡ true → w.files ≡ files))
        (open_write path append)
        (λ _ w. Holds (resolve path) (prior files (resolve path) append) w × Comes bytes w)
        Anything
unfolding open_write
open_write-Holds path true bytes files = record {
  runs = λ w (comes, same). elim (Bool-cases (draw w.faults)) [
    | inl e ↦ rw (e, Settles) tt
    | inr e ↦
        rw (e, Settles)
          (Lands-Opened (resolve path) (contents (lookup (resolve path) files)) bytes w
            (kept (lookup (resolve path) w.files))
            (subst
              (λ (fs : List (Key × Node)).
                Opened (contents (lookup (resolve path) fs)) (kept (lookup (resolve path) w.files)))
              (same refl) (kept-Opened (lookup (resolve path) w.files)))
            comes)
  ];
}
open_write-Holds path false bytes files = record {
  runs = λ w (comes, same). elim (Bool-cases (draw w.faults)) [
    | inl e ↦ rw (e, Settles) tt
    | inr e ↦
        rw (e, Settles)
          (Lands-Opened (resolve path) [] bytes w (emptied (lookup (resolve path) w.files))
            (emptied-Opened (lookup (resolve path) w.files)) comes)
  ];
}
