-- ===== src/Main/Refused.antt =====
-- The whole client against a server that answers the command with an ERROR frame.
use retriever.Base.{ℕ, ◌^◌, ◌≤◌, ◌<◌, ◌≡◌, refl, List, [], ◌++◌, some, length, All}
use retriever.Packing.Layout.{IsByte}
use retriever.Os.World.{World, Bytes, Attempt}
use retriever.Os.Triples.{Ends}
use retriever.Os.Calm.{IsSound}
use retriever.Socket.Stream.{stream}
use retriever.Frame.{payload_cap, t_ok, t_hello, t_error}
use retriever.Frame.Writing.{frame_bytes}
use retriever.Conversation.Errors.{error_bytes}
use retriever.Conversation.Refused.{CanAsk, Refused, perform-Refused}
use retriever.Main.{Command, main, exit_server}
use retriever.Main.Usage.{Usage}
use retriever.Main.Conversing.{IsReachable, host_of, port_of, main-converses}
use retriever.Main.Telling.{Talking-unlinked, failing}

-- Where the command line is a usage, an address takes the connection, no call of the C library fails,
-- what the command needs before its request is there (for GET nothing at the destination, for PUT a
-- regular file at the local path, for both a name within its limit), and the server answers HELLO
-- with an OK frame and the command with an ERROR frame whose payload is within the cap: `main` exits
-- with 1, `EXIT_SERVER`. All that it has sent is the HELLO frame and the request of the command, with no QUIT; all
-- that it has printed is the server's message, as far as the format prints it, and its code; no file
-- has changed, and what comes behind the ERROR frame is not read.
pub main-Refused :
    (argv : List Bytes) (c : Command) (code : ℕ) (message greeting rest : Bytes)
    (results : List Attempt) (w : World)
    → Usage argv c
    → w.addresses (host_of argv) (port_of argv) ≡ some results
    → IsReachable results
    → w.faults ≡ []
    → IsSound w.rooms
    → CanAsk c w.files
    → code < 256
    → All IsByte message
    → length message < 2 ^ 16
    → length (error_bytes code message) ≤ payload_cap
    → length greeting ≤ payload_cap
    → stream w.inbox
      ≡ frame_bytes t_ok greeting ++ (frame_bytes t_error (error_bytes code message) ++ rest)
    → Ends
        (λ status w'.
          (status ≡ exit_server)
          × Refused c w.files (w.sent ++ frame_bytes t_hello []) w.log code message rest w')
        (λ _. ⊥)
        (main argv w)
main-Refused argv c code message greeting rest results w usage found reachable clear sound can byte
      text short fits welcome comes =
    let sent : Bytes = w.sent ++ frame_bytes t_hello [] in
    let reply : Bytes = frame_bytes t_error (error_bytes code message) ++ rest in
    main-converses
      (failing greeting reply welcome (λ v (asked, (ask, t)). (asked, (ask, Talking-unlinked v t)))
        (perform-Refused w.files sent w.log code message rest
          (record { byte = byte; text = text; short = short }) fits c can))
      argv results w usage found reachable
      (record {
        stored = refl;
        said = refl;
        shown = refl;
        clear = clear;
        sound = sound;
        comes = comes;
      })
