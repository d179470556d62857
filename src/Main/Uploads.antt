-- ===== src/Main/Uploads.antt =====
-- The whole client, on a command line that asks for a PUT.
use retriever.Base.{ℕ, ◌^◌, ◌≤◌, ◌<◌, ◌≡◌, refl, ap, ◌∙◌, List, [], ◌++◌, some, length, All}
use retriever.Packing.Layout.{IsByte}
use retriever.Os.World.{World, Bytes, Key, Node, Attempt, regular}
use retriever.Os.Files.{lookup, resolve}
use retriever.Os.Triples.{Ends, Contract}
use retriever.Os.Calm.{IsSound, Never}
use retriever.Socket.Stream.{stream}
use retriever.Frame.{payload_cap, t_ok, t_hello}
use retriever.Frame.Writing.{frame_bytes}
use retriever.Transfer.Path.{max_name}
use retriever.Transfer.Put.Integrity.{put_bytes}
use retriever.Conversation.Frames.{Same, Talking}
use retriever.Conversation.Offset.{go_on}
use retriever.Conversation.Put.{CanStore, put_replies, put_report, do_put-Talking}
use retriever.Main.{Command, perform, main}
use retriever.Main.Usage.{Usage}
use retriever.Main.Conversing.{IsReachable, host_of, port_of, main-converses}
use retriever.Main.Telling.{Told, telling}

-- Where the command line asks for a PUT, an address takes the connection, no call of the C library
-- fails, a regular file stands at the local path, the names are within their limits, and the server
-- answers HELLO with an OK frame, PUT with an OK frame that begins with an offset within the file, the
-- upload with an OK frame and QUIT with any frame: `main` exits with 0. All that it has sent is the
-- HELLO frame, the PUT frame with the size, the hash and the name, the file's bytes from just that
-- offset to the end, and the QUIT frame, in this order; all that it has printed is where the upload
-- resumed, if it did, and that it is done; no file has changed, and what the server sends behind its
-- last frame is not read.
pub main-uploads :
    (argv : List Bytes) (path name c extra verdict greeting bye rest : Bytes) (offset type : ℕ)
    (results : List Attempt) (w : World)
    → Usage argv (Command.put path name)
    → w.addresses (host_of argv) (port_of argv) ≡ some results
    → IsReachable results
    → w.faults ≡ []
    → IsSound w.rooms
    → lookup (resolve path) w.files ≡ some (regular c)
    → length name ≤ max_name
    → length c < 2 ^ 64
    → offset ≤ length c
    → All IsByte extra
    → length (go_on offset extra) ≤ payload_cap
    → length verdict ≤ payload_cap
    → length greeting ≤ payload_cap
    → type < 256
    → length bye ≤ payload_cap
    → stream w.inbox
      ≡ frame_bytes t_ok greeting ++ put_replies offset extra verdict (frame_bytes type bye ++ rest)
    → Ends
        (Told
          (Same w.files)
          w.sent
          w.log
          rest
          (put_bytes c name offset)
          (put_report path name c offset))
        (λ _. ⊥)
        (main argv w)
main-uploads argv path name c extra verdict greeting bye rest offset type results w usage found
      reachable clear sound held short small within bytes reply_fits verdict_fits fits byte bye_fits
      comes =
    let can : CanStore (Same w.files) path name c offset extra = record {
      held = λ fs same. ap (λ (gs : List (Key × Node)). lookup (resolve path) gs) same ∙ held;
      short = short;
      small = small;
      within = within;
      bytes = bytes;
      reply_fits = reply_fits;
    } in
    let behind : Bytes = frame_bytes type bye ++ rest in
    let performs : Contract Never
        (Talking (Same w.files) (w.sent ++ frame_bytes t_hello []) w.log
          (put_replies offset extra verdict behind))
        (perform (Command.put path name))
        (λ _.
          Talking (Same w.files) ((w.sent ++ frame_bytes t_hello []) ++ put_bytes c name offset)
            (w.log ++ put_report path name c offset) behind)
        Never =
      unfold perform in
      do_put-Talking (Same w.files) (w.sent ++ frame_bytes t_hello []) w.log path name c offset
        extra verdict behind can verdict_fits in
    main-converses
      (telling (Same w.files) (Same w.files) w.sent w.log (Command.put path name) greeting
        (put_replies offset extra verdict behind) bye rest (put_bytes c name offset)
        (put_report path name c offset) type fits byte bye_fits performs)
      argv results w usage found reachable
      (record {
        stored = refl;
        said = refl;
        shown = refl;
        clear = clear;
        sound = sound;
        comes = comes;
      })
