-- ===== src/Main/Telling.antt =====
-- A command with HELLO before it and QUIT behind it: all that the client says and prints.
use retriever.Base.{ℕ, ◌≤◌, ◌<◌, ◌≡◌, refl, subst, ◌∙◌, List, [], ◌++◌, append_assoc}
use retriever.Base.{length}
use retriever.Os.World.{World, Bytes, Message}
use retriever.Os.Triples.{Contract, Contract-weaken}
use retriever.Os.Calm.{Never}
use retriever.Frame.{payload_cap, t_ok, t_hello, t_quit}
use retriever.Frame.Writing.{frame_bytes}
use retriever.Conversation.Frames.{Disk, Talking}
use retriever.Conversation.Hello.{do_hello-Talking, do_quit-Talking}
use retriever.Main.{Command, perform, exit_success, exit_server}
use retriever.Main.Conversing.{Conversation, linked, unlinked}

-- Sockets and handles are not seen.
pub Talking-linked :
    {disk : Disk} {sent : Bytes} {log : List Message} {bytes : Bytes} (w : World)
    → Talking disk sent log bytes w
    → Talking disk sent log bytes (linked w)
Talking-linked w t = record {
  stored = t.stored;
  said = t.said;
  shown = t.shown;
  clear = t.clear;
  sound = t.sound;
  comes = t.comes;
}

pub Talking-unlinked :
    {disk : Disk} {sent : Bytes} {log : List Message} {bytes : Bytes} (w : World)
    → Talking disk sent log bytes w
    → Talking disk sent log bytes (unlinked w)
Talking-unlinked w t = record {
  stored = t.stored;
  said = t.said;
  shown = t.shown;
  clear = t.clear;
  sound = t.sound;
  comes = t.comes;
}

-- What is said around a command.
abbrev pub session_bytes : Bytes → Bytes
session_bytes asked = frame_bytes t_hello [] ++ (asked ++ frame_bytes t_quit [])

-- The status 0 after a whole session.
abbrev pub Told : Disk → Bytes → List Message → Bytes → Bytes → List Message → ℕ → World → Type 0
Told disk sent log rest asked shown code w =
    (code ≡ exit_success) × Talking disk (sent ++ session_bytes asked) (log ++ shown) rest w

module _ (disk after : Disk) (sent : Bytes) (log : List Message) (c : Command)
    (greeting ahead bye rest asked : Bytes) (shown : List Message) (type : ℕ) where
  -- A command that says `asked` and prints `shown`, with HELLO before it and QUIT behind it.
  pub telling :
      length greeting ≤ payload_cap
      → type < 256
      → length bye ≤ payload_cap
      → Contract Never
          (Talking disk (sent ++ frame_bytes t_hello []) log ahead)
          (perform c)
          (λ _.
            Talking after
              ((sent ++ frame_bytes t_hello []) ++ asked)
              (log ++ shown)
              (frame_bytes type bye ++ rest))
          Never
      → Conversation Never c
          (Talking disk sent log (frame_bytes t_ok greeting ++ ahead))
          (Told after sent log rest asked shown)
  telling fits byte bye_fits performs =
      let hello : Bytes = frame_bytes t_hello [] in
      let quit : Bytes = frame_bytes t_quit [] in
      record {
        Greeted = Talking disk (sent ++ hello) log ahead;
        Performed =
            Talking after ((sent ++ hello) ++ asked) (log ++ shown) (frame_bytes type bye ++ rest);
        Failed = Never;
        connects = λ w t. Talking-linked w t;
        greets = do_hello-Talking _ greeting fits;
        performs = performs;
        quits = Contract-weaken (do_quit-Talking rest type bye byte bye_fits) (λ _ w t. (
          refl,
          subst (λ (b : Bytes). Talking after b (log ++ shown) rest w)
              (append_assoc (sent ++ hello) asked quit ∙ append_assoc sent hello (asked ++ quit)) t,
        ));
        fails = λ w p. absurd p;
        closes = λ code w (same, t). (same, Talking-unlinked w t);
      }

-- A command that fails, with HELLO before it: the status `EXIT_SERVER`, and no QUIT.
pub failing :
    {disk : Disk} {sent : Bytes} {log : List Message} {c : Command} {F : World → Type 0}
    (greeting ahead : Bytes)
    → length greeting ≤ payload_cap
    → ((w : World) → F w → F (unlinked w))
    → Contract Never
        (Talking disk (sent ++ frame_bytes t_hello []) log ahead)
        (perform c)
        (λ _. Never)
        F
    → Conversation Never c
        (Talking disk sent log (frame_bytes t_ok greeting ++ ahead))
        (λ code w. (code ≡ exit_server) × F w)
failing {disk} {sent} {log} {F} greeting ahead fits closes performs = record {
  Greeted = Talking disk (sent ++ frame_bytes t_hello []) log ahead;
  Performed = Never;
  Failed = F;
  connects = λ w t. Talking-linked w t;
  greets = do_hello-Talking ahead greeting fits;
  performs = performs;
  quits = record { runs = λ w n. absurd n };
  fails = λ w p. (refl, p);
  closes = λ _ w (same, p). (same, closes w p);
}
