-- ===== src/Conversation/Hello.antt =====
-- The greeting and the farewell of c/main.c.
use retriever.Base.{ℕ, ◌≤◌, ◌<◌, ◌≡◌, arith, List, [], ◌++◌, length, Option, none, some}
use retriever.Os.World.{Bytes, Message}
use retriever.Os.Program.{M, pure, attempt, ◌>>=◌}
use retriever.Os.Heap.{free}
use retriever.Os.Triples.{Contract, Contract-bind, Contract-then, Contract-known, Attempted}
use retriever.Os.Triples.{Contract-attempt}
use retriever.Os.Calm.{Never}
use retriever.Frame.{Frame, payload_cap, read_frame, t_ok, t_hello, t_quit}
use retriever.Frame.Writing.{frame_bytes}
use retriever.Session.{check_hello, do_hello, do_quit}
use retriever.Conversation.Frames.{
  Disk, Talking, framed, write_frame-Talking, read_frame-Talking, free-Talking,
}

module _ {disk : Disk} {sent : Bytes} {log : List Message} (rest : Bytes) where
  check_hello-Talking :
      (greeting : Bytes)
      → Contract Never
          (Talking disk sent log rest)
          (check_hello (framed t_ok greeting))
          (λ _. Talking disk sent log rest)
          Never
  unfolding check_hello
  check_hello-Talking greeting =
      Contract-then (free-Talking (framed t_ok greeting).payload) (record { runs = λ w t. t })

  released :
      (type : ℕ) (bye : Bytes) (f : Option Frame)
      → Contract Never
          (Attempted
            (λ (g : Frame) w. (g ≡ framed type bye) × Talking disk sent log rest w)
            Never
            f)
          (elim f as (λ _. M (Unit {0})) [ none ↦ pure tt | some frame ↦ free frame.payload ])
          (λ _. Talking disk sent log rest)
          Never
  released type bye none = record { runs = λ w p. absurd p }
  released type bye (some g) = record { runs = λ w p. (free-Talking g.payload).runs w p.1 }

module _ {disk : Disk} {sent : Bytes} {log : List Message} (rest : Bytes) where
  -- HELLO is said, and nothing is printed.
  pub do_hello-Talking :
      (greeting : Bytes)
      → length greeting ≤ payload_cap
      → Contract Never
          (Talking disk sent log (frame_bytes t_ok greeting ++ rest))
          do_hello
          (λ _. Talking disk (sent ++ frame_bytes t_hello []) log rest)
          Never
  unfolding do_hello
  do_hello-Talking greeting fits = Contract-then (write_frame-Talking t_hello []) (
      Contract-known check_hello (read_frame-Talking t_ok greeting rest (omega arith) fits)
        (check_hello-Talking rest greeting))

  -- QUIT is said, and nothing is printed whatever frame is the answer.
  pub do_quit-Talking :
      (type : ℕ) (bye : Bytes)
      → type < 256
      → length bye ≤ payload_cap
      → Contract Never
          (Talking disk sent log (frame_bytes type bye ++ rest))
          do_quit
          (λ _. Talking disk (sent ++ frame_bytes t_quit []) log rest)
          Never
  unfolding do_quit
  do_quit-Talking type bye byte fits =
      Contract-bind (Contract-attempt (write_frame-Talking t_quit [])) after_write
    where
      after_write :
          (wrote : Option (Unit {0}))
          → Contract Never
              (Attempted
                (λ (_ : Unit {0}).
                  Talking disk (sent ++ frame_bytes t_quit []) log (frame_bytes type bye ++ rest))
                Never
                wrote)
              (elim wrote as (λ _. M (Unit {0})) [
                | none ↦ pure tt
                | some _ ↦ attempt read_frame >>= λ f. elim f as (λ _. M (Unit {0})) [
                  | none ↦ pure tt
                  | some frame ↦ free frame.payload
                ]
              ])
              (λ _. Talking disk (sent ++ frame_bytes t_quit []) log rest)
              Never
      after_write none = record { runs = λ w p. absurd p }
      after_write (some _) =
          Contract-bind (Contract-attempt (read_frame-Talking type bye rest byte fits))
            (released rest type bye)
