-- ===== src/Main/Untouched.antt =====
-- What the client leaves alone on the disk.
use retriever.Base.{◌≡◌, refl, false, List}
use retriever.Os.World.{World, Bytes, Key}
use retriever.Os.Files.{key_eq, lookup, resolve}
use retriever.Os.Triples.{Settles}
use retriever.Os.Untouched.{Stands, keeping}
use retriever.Transfer.Get.Untouched.{IsApart}
use retriever.Main.{Command, main}
use retriever.Main.Usage.{Usage}
use retriever.Main.Tracked.{MayDo, main-Tracked}

-- A place that a GET to `dest` has no business with.
abbrev pub IsElsewhere : Key → Bytes → Type 0
IsElsewhere k dest = (key_eq k (resolve dest) ≡ false) × IsApart dest k

-- Whatever the server, the other files and the faults: what stands at a place stands there still when
-- `main` ends or waits for ever, unless the command line asks for a GET and the place is its destination
-- or that of one of its partial files, a name `.<base>.<16 bytes>.part` in the destination's directory.
-- LIST and PUT change no file.
pub main-Untouched :
    (argv : List Bytes) (k : Key) (w : World)
    → ((name dest : Bytes) → Usage argv (Command.get name dest) → IsElsewhere k dest)
    → Settles
        (Stands k (lookup k w.files))
        (λ _. Stands k (lookup k w.files))
        (λ _. ⊥)
        (main argv w)
main-Untouched argv k w elsewhere =
    (main-Tracked (keeping k (lookup k w.files)) {b = 0} {h = 0} {s = 0} argv may).runs w refl
  where
    may : (c : Command) → Usage argv c → MayDo (keeping k (lookup k w.files)) c
    may Command.list usage = tt
    may (Command.get name dest) usage = elsewhere name dest usage
    may (Command.put name other) usage = tt
