-- ===== src/Main/Resources.antt =====
-- The whole client and the counts: at the exit nothing is left open or allocated.
use retriever.Base.{refl, List}
use retriever.Os.World.{World, Bytes}
use retriever.Os.Triples.{Settles}
use retriever.Os.Resources.{Uses, Waits, counting}
use retriever.Socket.Stream.{Ending, ending}
use retriever.Main.{Command, main}
use retriever.Main.Tracked.{MayDo, main-Tracked}

pub any_command : (e : Ending) (c : Command) → MayDo (counting e) c
any_command e Command.list = tt
any_command e (Command.get name dest) = (tt, λ p beside. tt)
any_command e (Command.put name other) = tt

-- Where each `send` comes back, in a process that ignores SIGPIPE, and whatever the arguments, the
-- server, the files and the faults otherwise: `main` has an exit status, and then
-- as many blocks, handles (streams, directories and address lists) and sockets are held as before
-- it began. It waits for ever only where the server neither closes nor breaks the connection.
pub main-restores :
    (argv : List Bytes) (w : World)
    → Settles
        (Waits (ending w.inbox))
        (λ _. Uses (ending w.inbox) w.heap w.handles w.sockets)
        (λ _. ⊥)
        (main argv w)
main-restores argv w =
    (main-Tracked (counting (ending w.inbox)) argv (λ c usage. any_command (ending w.inbox) c)).runs
      w (record { ends = refl; blocks = refl; opens = refl; connections = refl })
