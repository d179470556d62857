-- ===== src/Main/Fetches.antt =====
-- The whole client, on a command line that asks for a GET of a file of which nothing is there.
use retriever.Base.{ℕ, ◌+◌, ◌^◌, ◌≤◌, ◌<◌, ◌≡◌, refl, List, [], ◌∷◌, ◌++◌, none, some, length}
use retriever.Os.World.{World, Bytes, Attempt, downloaded}
use retriever.Os.Files.{lookup, resolve, entries}
use retriever.Os.Triples.{Ends, Contract}
use retriever.Os.Calm.{IsSound, Never}
use retriever.Socket.Stream.{stream}
use retriever.Sha256.Padding.{sha256}
use retriever.Frame.{payload_cap, t_ok, t_hello}
use retriever.Frame.Writing.{frame_bytes}
use retriever.Transfer.Path.{dir_max, max_name, split_path}
use retriever.Transfer.Partial.{scan_entries}
use retriever.Transfer.Resuming.{prefix_of}
use retriever.Transfer.Get.Completing.{IsPlain}
use retriever.Conversation.Frames.{Same, Talking}
use retriever.Conversation.Search.{partial_of}
use retriever.Conversation.Download.{File}
use retriever.Conversation.Asked.{offers}
use retriever.Conversation.Fresh.{asks_all, do_get-fetches}
use retriever.Main.{Command, perform, main}
use retriever.Main.Usage.{Usage}
use retriever.Main.Conversing.{IsReachable, host_of, port_of, main-converses}
use retriever.Main.Telling.{Told, telling}

-- Where the command line asks for a GET, nothing stands at the destination, the number of partial
-- files for it in its directory is not one, at the place of the partial file is nothing or a regular
-- file, an address takes the connection, no call of the C library fails, and the server answers HELLO
-- with an OK frame, GET with an OK frame that has the size, the offset 0, the hash of `body` and then
-- `body`, and QUIT with any frame: `main` exits with 0, and `body` stands at the destination. All that
-- it has sent is the HELLO frame, a GET frame with the offset 0 and a token of zeros, and the QUIT
-- frame; all that it has printed is that the file is downloaded, and what the server sends behind its
-- last frame is not read. The name and the path are within their limits.
pub main-fetches :
    (argv : List Bytes) (name dest dir base body greeting bye rest : Bytes) (n type : ℕ)
    (results : List Attempt) (w : World)
    → Usage argv (Command.get name dest)
    → w.addresses (host_of argv) (port_of argv) ≡ some results
    → IsReachable results
    → w.faults ≡ []
    → IsSound w.rooms
    → split_path dest dir_max (max_name + 1) ≡ some (dir, base)
    → lookup (resolve dest) w.files ≡ none
    → ¬ ((scan_entries (prefix_of base) (entries (resolve dir) w.files) 0 []).0 ≡ 1)
    → IsPlain (lookup (resolve (partial_of dest dir base (sha256 body))) w.files)
    → length body < 2 ^ 64
    → length name ≤ max_name
    → n < 2 ^ 64
    → length greeting ≤ payload_cap
    → type < 256
    → length bye ≤ payload_cap
    → stream w.inbox
      ≡ frame_bytes t_ok greeting
        ++ offers n (length body) 0 (sha256 body) (body ++ (frame_bytes type bye ++ rest))
    → Ends
        (Told
          (File dest body)
          w.sent
          w.log
          rest
          (asks_all name)
          (downloaded name (length body) dest ∷ []))
        (λ _. ⊥)
        (main argv w)
main-fetches argv name dest dir base body greeting bye rest n type results w usage found reachable
      clear sound parts missing several plain small short fits welcome byte bye_fits comes =
    let behind : Bytes = frame_bytes type bye ++ rest in
    let sent : Bytes = w.sent ++ frame_bytes t_hello [] in
    let ahead : Bytes = offers n (length body) 0 (sha256 body) (body ++ behind) in
    let performs : Contract Never (Talking (Same w.files) sent w.log ahead)
        (perform (Command.get name dest))
        (λ _.
          Talking (File dest body) (sent ++ asks_all name)
            (w.log ++ (downloaded name (length body) dest ∷ [])) behind)
        Never =
      unfold perform in
      do_get-fetches w.files sent w.log name dest dir base body behind n parts missing several plain
        short fits small in
    main-converses
      (telling (Same w.files) (File dest body) w.sent w.log (Command.get name dest) greeting ahead
        bye rest (asks_all name) (downloaded name (length body) dest ∷ []) type welcome byte
        bye_fits performs)
      argv results w usage found reachable
      (record {
        stored = refl;
        said = refl;
        shown = refl;
        clear = clear;
        sound = sound;
        comes = comes;
      })
