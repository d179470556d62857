-- ===== src/Os/Untouched.antt =====
-- What stands at one place as an invariant: it stays where only other places change.
use retriever.Base.{◌≡◌, ◌∙◌, false, Option, List}
use retriever.Os.Triples.{Anything}
use retriever.Os.World.{World, Key, Node}
use retriever.Os.Files.{key_eq, lookup}
use retriever.Os.Lookup.{lookup-insert_other, lookup-erase_other}
use retriever.Os.Tracking.{Tracking}

-- At `k` stands `v`.
abbrev pub Stands : Key → Option Node → World → Type 0
Stands k v w = lookup k w.files ≡ v

abbrev pub keeping : (k : Key) (v : Option Node) → Tracking (Stands k v) (λ b h s. Stands k v)
keeping k v = record {
  Allowed = λ j. key_eq k j ≡ false;
  logs = λ b h s w log u. u;
  draws = λ b h s w u. u;
  allocates = λ b h s w u. u;
  frees = λ b h s w u. u;
  opens = λ b h s w u. u;
  shuts = λ b h s w u. u;
  connects = λ b h s w u. u;
  disconnects = λ b h s w u. u;
  reads = λ b h s w n u. u;
  idles = λ b h s w n e u. u;
  writes = λ b h s w n sent u. u;
  stores = λ b h s w j node apart u. lookup-insert_other k j node w.files apart ∙ u;
  erases = λ b h s w j apart u. lookup-erase_other k j w.files apart ∙ u;
}

-- All files are as they were.
abbrev pub Frozen : List (Key × Node) → World → Type 0
Frozen files w = w.files ≡ files

abbrev pub frozen : (files : List (Key × Node)) → Tracking Anything (λ b h s. Frozen files)
frozen files = record {
  Allowed = λ _. ⊥;
  logs = λ b h s w log u. u;
  draws = λ b h s w u. u;
  allocates = λ b h s w u. u;
  frees = λ b h s w u. u;
  opens = λ b h s w u. u;
  shuts = λ b h s w u. u;
  connects = λ b h s w u. u;
  disconnects = λ b h s w u. u;
  reads = λ b h s w n u. u;
  idles = λ b h s w n e u. tt;
  writes = λ b h s w n sent u. u;
  stores = λ b h s w j node no u. absurd no;
  erases = λ b h s w j no u. absurd no;
}
