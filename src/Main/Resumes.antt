-- ===== src/Main/Resumes.antt =====
-- The whole client, on a command line that asks for a GET of a file that is half there.
use retriever.Base.{ℕ, ◌+◌, ◌^◌, ◌≤◌, ◌<◌, ◌≡◌, refl, arith, List, [], ◌++◌, none, some, length}
use retriever.Os.World.{World, Bytes, Attempt, regular}
use retriever.Os.Files.{lookup, resolve, entries}
use retriever.Os.Triples.{Ends, Contract}
use retriever.Os.Calm.{IsSound, Never}
use retriever.Socket.Stream.{stream}
use retriever.Sha256.Padding.{sha256}
use retriever.Sha256.Keeping.{length-sha256}
use retriever.Sha256.Shape.{sha256-All}
use retriever.Frame.{payload_cap, t_ok, t_hello}
use retriever.Frame.Writing.{frame_bytes}
use retriever.Transfer.Path.{dir_max, max_name, split_path}
use retriever.Transfer.Partial.{scan_entries}
use retriever.Transfer.Resuming.{prefix_of, entry}
use retriever.Conversation.Frames.{Same, Talking}
use retriever.Conversation.Search.{Kept, partial_of}
use retriever.Conversation.Download.{File}
use retriever.Conversation.Get.{get_replies, get_bytes, get_report, do_get-Talking}
use retriever.Main.{Command, perform, main}
use retriever.Main.Usage.{Usage}
use retriever.Main.Conversing.{IsReachable, host_of, port_of, main-converses}
use retriever.Main.Telling.{Told, telling}

-- Where the command line asks for a GET, nothing stands at the destination, its directory has just
-- one partial file for it, which is not empty and whose name has the token of the file `c ++ tail` and
-- whose contents are `c`, an address takes the connection, no call of the C library fails, and the
-- server answers HELLO with an OK frame, GET with an OK frame that has the size, the offset
-- `length c`, the hash of `c ++ tail` and then `tail`, and QUIT with any frame: `main` exits with 0,
-- and `c ++ tail` stands at the destination. All that it has sent is the HELLO frame, a GET frame that
-- asks for what is behind the bytes it has, under the first eight bytes of the hash, and the QUIT
-- frame; all that it has printed is where it resumed and that the file is downloaded. The name and
-- the path are within their limits.
pub main-resumes :
    (argv : List Bytes) (name dest dir base c tail greeting bye rest : Bytes) (n type : ℕ)
    (results : List Attempt) (w : World)
    → Usage argv (Command.get name dest)
    → w.addresses (host_of argv) (port_of argv) ≡ some results
    → IsReachable results
    → w.faults ≡ []
    → IsSound w.rooms
    → split_path dest dir_max (max_name + 1) ≡ some (dir, base)
    → lookup (resolve dest) w.files ≡ none
    → scan_entries (prefix_of base) (entries (resolve dir) w.files) 0 []
      ≡ (1, entry base (sha256 (c ++ tail)))
    → lookup (resolve (partial_of dest dir base (sha256 (c ++ tail)))) w.files ≡ some (regular c)
    → 0 < length c
    → length (c ++ tail) < 2 ^ 64
    → length name ≤ max_name
    → n < 2 ^ 64
    → length greeting ≤ payload_cap
    → type < 256
    → length bye ≤ payload_cap
    → stream w.inbox
      ≡ frame_bytes t_ok greeting ++ get_replies n c tail (frame_bytes type bye ++ rest)
    → Ends
        (Told
          (File dest (c ++ tail))
          w.sent
          w.log
          rest
          (get_bytes name c tail)
          (get_report name dest (length c) (length (c ++ tail))))
        (λ _. ⊥)
        (main argv w)
main-resumes argv name dest dir base c tail greeting bye rest n type results w usage found reachable
      clear sound parts missing only held begun small short fits welcome byte bye_fits comes =
    let body : Bytes = c ++ tail in
    let kept : Kept w.files dest dir base (sha256 body) c = record {
      parts = parts;
      bytes = sha256-All body;
      long = omega (arith, length-sha256 body);
      only = only;
      held = held;
    } in
    let behind : Bytes = frame_bytes type bye ++ rest in
    let sent : Bytes = w.sent ++ frame_bytes t_hello [] in
    let performs : Contract Never (Talking (Same w.files) sent w.log (get_replies n c tail behind))
        (perform (Command.get name dest))
        (λ _.
          Talking (File dest body) (sent ++ get_bytes name c tail)
            (w.log ++ get_report name dest (length c) (length body)) behind)
        Never =
      unfold perform in
      do_get-Talking w.files sent w.log name dest dir base c tail behind n kept missing begun short
        fits small in
    main-converses
      (telling (Same w.files) (File dest body) w.sent w.log (Command.get name dest) greeting
        (get_replies n c tail behind) bye rest (get_bytes name c tail)
        (get_report name dest (length c) (length body)) type welcome byte bye_fits performs)
      argv results w usage found reachable
      (record {
        stored = refl;
        said = refl;
        shown = refl;
        clear = clear;
        sound = sound;
        comes = comes;
      })
