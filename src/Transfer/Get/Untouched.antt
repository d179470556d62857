-- ===== src/Transfer/Get/Untouched.antt =====
-- What `rtrv_do_get` leaves alone: it changes its partial files, and the destination at the end.
use retriever.Base.{◌≡◌, refl, ◌∙◌, false, Option}
use retriever.Os.World.{World, Bytes, Key, Node}
use retriever.Os.Files.{key_eq, lookup, resolve}
use retriever.Os.Lookup.{lookup-insert_other}
use retriever.Os.Triples.{Settles, Anything, Contract-weaken}
use retriever.Os.Tracking.{Publishing}
use retriever.Os.Untouched.{Stands, keeping}
use retriever.Transfer.Get.{do_get}
use retriever.Transfer.Get.Beside.{IsBeside, dest_apart}
use retriever.Transfer.GetTracked.{do_get-Tracked}

-- No partial file of `dest` stands at the place.
abbrev pub IsApart : Bytes → Key → Type 0
IsApart dest k = (p : Bytes) → IsBeside dest p → key_eq k (resolve p) ≡ false

-- Where the destination is another place.
abbrev pub StandsBut : Bytes → Key → Option Node → World → Type 0
StandsBut dest k v w = key_eq k (resolve dest) ≡ false → Stands k v w

replaced :
    (dest : Bytes) (k : Key) (v : Option Node)
    → Publishing (λ b h s. Stands k v) (λ b h s. StandsBut dest k v) (resolve dest)
replaced dest k v = record {
  publishes = λ b h s w node u apart. lookup-insert_other k (resolve dest) node w.files apart ∙ u;
  prints = λ b h s w log u. u;
}

-- At every place that is not one of a partial file of the destination: what stood there stands there
-- still, where the call fails or waits for ever, and where it succeeds also, unless the place is the
-- destination.
pub do_get-Untouched :
    (name dest : Bytes) (k : Key) (w : World)
    → IsApart dest k
    → Settles
        (Stands k (lookup k w.files))
        (λ _. StandsBut dest k (lookup k w.files))
        (Stands k (lookup k w.files))
        (do_get name dest w)
do_get-Untouched name dest k w apart =
    (do_get-Tracked (keeping k (lookup k w.files)) {b = 0} {h = 0} {s = 0} dest apart
        (replaced dest k (lookup k w.files)) name).runs
      w refl

-- Whatever the server, the files and the faults: where `rtrv_do_get` fails or waits for ever, what
-- stood at the destination stands there still.
pub do_get-keeps_dest :
    (name dest : Bytes) (w : World)
    → Settles
        (Stands (resolve dest) (lookup (resolve dest) w.files))
        (λ _. Anything)
        (Stands (resolve dest) (lookup (resolve dest) w.files))
        (do_get name dest w)
do_get-keeps_dest name dest w =
    (Contract-weaken
        (do_get-Tracked (keeping (resolve dest) (lookup (resolve dest) w.files)) {b = 0} {h = 0}
          {s = 0} dest (dest_apart dest)
          (replaced dest (resolve dest) (lookup (resolve dest) w.files)) name)
        (λ _ w' u. tt)).runs
      w refl
