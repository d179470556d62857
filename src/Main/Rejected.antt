-- ===== src/Main/Rejected.antt =====
-- The whole client, where the server does not take the upload.
use retriever.Base.{ℕ, ◌^◌, ◌≤◌, ◌<◌, ◌≡◌, refl, ap, ◌∙◌, List, [], ◌++◌, some, length, All}
use retriever.Packing.Layout.{IsByte}
use retriever.Os.World.{World, Bytes, Key, Node, Attempt, regular}
use retriever.Os.Files.{lookup, resolve}
use retriever.Os.Triples.{Ends, Contract}
use retriever.Os.Calm.{IsSound, Never}
use retriever.Socket.Stream.{stream}
use retriever.Frame.{payload_cap, t_ok, t_hello}
use retriever.Frame.Writing.{frame_bytes}
use retriever.Transfer.Path.{max_name}
use retriever.Transfer.Put.Integrity.{put_bytes}
use retriever.Conversation.Frames.{Same, Talking}
use retriever.Conversation.Offset.{go_on}
use retriever.Conversation.Put.{CanStore}
use retriever.Conversation.Errors.{error_bytes}
use retriever.Conversation.Rejected.{reject_replies, reject_report, do_put-rejected}
use retriever.Main.{Command, perform, main, exit_server}
use retriever.Main.Usage.{Usage}
use retriever.Main.Conversing.{IsReachable, host_of, port_of, main-converses}
use retriever.Main.Telling.{Talking-unlinked, failing}

-- Where the command line asks for a PUT, an address takes the connection, no call of the C library
-- fails, a regular file stands at the local path, the names are within their limits, and the server
-- answers HELLO with an OK frame, PUT with an OK frame that begins with an offset within the file, and
-- the upload with an ERROR frame whose payload is within the cap: `main` exits with 1, `EXIT_SERVER`. All that it has
-- sent is the HELLO frame, the PUT frame and the file's bytes from just that offset to the end, with no
-- QUIT; all that it has printed is where the upload resumed, if it did, and the server's message with
-- its code, and not that the file is uploaded; no file has changed.
pub main-rejected :
    (argv : List Bytes) (path name c extra message greeting rest : Bytes) (offset code : ℕ)
    (results : List Attempt) (w : World)
    → Usage argv (Command.put path name)
    → w.addresses (host_of argv) (port_of argv) ≡ some results
    → IsReachable results
    → w.faults ≡ []
    → IsSound w.rooms
    → lookup (resolve path) w.files ≡ some (regular c)
    → length name ≤ max_name
    → length c < 2 ^ 64
    → offset ≤ length c
    → All IsByte extra
    → length (go_on offset extra) ≤ payload_cap
    → code < 256
    → All IsByte message
    → length message < 2 ^ 16
    → length (error_bytes code message) ≤ payload_cap
    → length greeting ≤ payload_cap
    → stream w.inbox ≡ frame_bytes t_ok greeting ++ reject_replies offset extra code message rest
    → Ends
        (λ status w'.
          (status ≡ exit_server)
          × Talking
              (Same w.files)
              ((w.sent ++ frame_bytes t_hello []) ++ put_bytes c name offset)
              (w.log ++ reject_report offset code message)
              rest
              w')
        (λ _. ⊥)
        (main argv w)
main-rejected argv path name c extra message greeting rest offset code results w usage found
      reachable clear sound held short small within bytes reply_fits byte text error_short fits
      welcome comes =
    let can : CanStore (Same w.files) path name c offset extra = record {
      held = λ fs same. ap (λ (gs : List (Key × Node)). lookup (resolve path) gs) same ∙ held;
      short = short;
      small = small;
      within = within;
      bytes = bytes;
      reply_fits = reply_fits;
    } in
    let sent : Bytes = w.sent ++ frame_bytes t_hello [] in
    let replies : Bytes = reject_replies offset extra code message rest in
    let performs : Contract Never (Talking (Same w.files) sent w.log replies)
        (perform (Command.put path name)) (λ _. Never)
        (Talking (Same w.files) (sent ++ put_bytes c name offset)
          (w.log ++ reject_report offset code message) rest) =
      unfold perform in
      do_put-rejected (Same w.files) sent w.log path name c offset extra code message rest can
        (record { byte = byte; text = text; short = error_short }) fits in
    main-converses (failing greeting replies welcome (λ v t. Talking-unlinked v t) performs) argv
      results w usage found reachable
      (record {
        stored = refl;
        said = refl;
        shown = refl;
        clear = clear;
        sound = sound;
        comes = comes;
      })
