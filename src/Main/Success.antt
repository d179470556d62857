-- ===== src/Main/Success.antt =====
-- The whole client succeeds against a server that keeps the protocol.
use retriever.Base.{◌≤◌, ◌≡◌, refl, arith, List, ◌++◌}
use retriever.Base.{length}
use retriever.Os.World.{World, Bytes, Key, Node}
use retriever.Os.Program.{Run, ok, err, waits}
use retriever.Os.Triples.{Settles, Ends, Contract, Contract-also}
use retriever.Os.Triples.{Contract-weaken}
use retriever.Os.Calm.{calming, Never}
use retriever.Os.Resources.{counting}
use retriever.Socket.Stream.{Ending, stream, ending}
use retriever.Frame.{payload_cap, t_ok}
use retriever.Frame.Writing.{frame_bytes}
use retriever.Conversation.Frames.{frame_lasts-IsSound}
use retriever.Session.{do_hello}
use retriever.Session.Tracked.{do_hello-Tracked}
use retriever.Session.Greeting.{do_hello-answered}
use retriever.Transfer.Get.Replied.{Waiting, fixing}

-- A call that ends with a failure that cannot be.
Settles-sure :
    {A : Type 0} (Q R : A → World → Type 0) (E : World → Type 0) (r : Run A)
    → Ends Q E r
    → ((w : World) → ¬ E w)
    → ((a : A) (w : World) → Q a w → R a w)
    → Settles Never R Never r
Settles-sure Q R E (ok a w) l never t = t a w l
Settles-sure Q R E (err w) l never t = absurd (never w l)
Settles-sure Q R E (waits w) l never t = absurd l

module _ (files : List (Key × Node)) (greeting rest : Bytes) where
  -- The greeting, and how the connection ends.
  abbrev pub Greeted : Ending → World → Type 0
  Greeted e w = (ending w.inbox ≡ e) × Waiting files (frame_bytes t_ok greeting ++ rest) w

  answered :
      length greeting ≤ payload_cap
      → Contract Never
          (Waiting files (frame_bytes t_ok greeting ++ rest))
          do_hello
          (λ _ w. stream w.inbox ≡ rest)
          Never
  answered fits = record {
    runs = λ w (same, ((clear, sound), comes)).
        Settles-sure (λ _ w'. (t_ok ≡ t_ok) × (stream w'.inbox ≡ rest))
          (λ _ w'. stream w'.inbox ≡ rest) (λ _. ¬ (t_ok ≡ t_ok)) (do_hello w)
          (do_hello-answered t_ok greeting rest w (frame_lasts-IsSound 0 w.rooms sound)
            (omega arith) fits (rw clear) comes)
          (λ w' never. never refl) (λ _ w' q. q.1);
  }

  pub do_hello-Waiting :
      (e : Ending)
      → length greeting ≤ payload_cap
      → Contract Never
          (Greeted e)
          do_hello
          (λ _ w. (ending w.inbox ≡ e) × Waiting files rest w)
          Never
  do_hello-Waiting e fits = record {
    runs = λ w (ends, (same, (c, comes))).
        (Contract-weaken
            (Contract-also
              (do_hello-Tracked (counting e) {b = w.heap} {h = w.handles} {s = w.sockets})
              (Contract-also (do_hello-Tracked (fixing files) {b = 0} {h = 0} {s = 0})
                (Contract-also (do_hello-Tracked calming {b = 0} {h = 0} {s = 0}) (answered fits))))
            (λ _ w' (counted, (same', (c', left))). (counted.ends, (same', (c', left))))).runs
          w
          (
            record { ends = ends; blocks = refl; opens = refl; connections = refl },
            (same, (c, (same, (c, comes)))),
          );
  }
