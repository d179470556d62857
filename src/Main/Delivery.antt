-- ===== src/Main/Delivery.antt =====
-- A GET around its transfer: what the file that is delivered lives through.
use retriever.Base.{◌≤◌, ◌≡◌, refl, List, some, length}
use retriever.Os.World.{World, Bytes, Key, Node, regular}
use retriever.Os.Triples.{Contract, Contract-also, Contract-weaken}
use retriever.Os.Calm.{Never, Contract-patient}
use retriever.Os.Resources.{Waits, counting}
use retriever.Os.Untouched.{keeping}
use retriever.Socket.Stream.{Ending, ending}
use retriever.Frame.{payload_cap}
use retriever.Session.{do_quit}
use retriever.Session.Tracked.{do_quit-Tracked}
use retriever.Transfer.Get.Appending.{Holds}
use retriever.Transfer.Get.Replied.{Waiting}
use retriever.Main.{Command, perform, exit_success}
use retriever.Main.Success.{Greeted, do_hello-Waiting}
use retriever.Main.Conversing.{Conversation}

-- A file stands at a place, on a connection that ends with `e`.
abbrev pub Delivered : Ending → Key → Bytes → World → Type 0
Delivered e k body w = (ending w.inbox ≡ e) × Holds k body w

module _ (e : Ending) (k : Key) (body : Bytes) where
  do_quit-Delivered :
      Contract (Waits e) (Delivered e k body) do_quit (λ _. Delivered e k body) Never
  do_quit-Delivered = record {
    runs = λ w (ends, held).
        (Contract-weaken
            (Contract-also
              (do_quit-Tracked (keeping k (some (regular body))) {b = 0} {h = 0} {s = 0}
                {E = Never})
              (do_quit-Tracked (counting e) {b = w.heap} {h = w.handles} {s = w.sockets}
                {E = Never}))
            (λ _ w' (held', counted). (counted.ends, held'))).runs
          w (held, record { ends = ends; blocks = refl; opens = refl; connections = refl });
  }

  pub delivering :
      (c : Command) (files : List (Key × Node)) (greeting rest : Bytes)
      → length greeting ≤ payload_cap
      → Contract Never
          (λ w. (ending w.inbox ≡ e) × Waiting files rest w)
          (perform c)
          (λ _. Delivered e k body)
          Never
      → Conversation
          (Waits e)
          c
          (Greeted files greeting rest e)
          (λ code w. (code ≡ exit_success) × Delivered e k body w)
  delivering c files greeting rest fits performs = record {
    Greeted = λ w. (ending w.inbox ≡ e) × Waiting files rest w;
    Performed = Delivered e k body;
    Failed = Never;
    connects = λ w p. p;
    greets = Contract-patient (do_hello-Waiting files greeting rest e fits);
    performs = Contract-patient performs;
    quits = Contract-weaken do_quit-Delivered (λ _ w p. (refl, p));
    fails = λ w p. absurd p;
    closes = λ code w p. p;
  }
