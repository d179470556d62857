-- ===== src/Main/Mismatch.antt =====
-- The whole client, where what it downloads is not what the server has announced.
use retriever.Base.{
  ℕ, ◌+◌, ◌^◌, ◌≤◌, ◌<◌, ◌≡◌, refl, arith, List, [], ◌++◌, none, some, length, All,
}
use retriever.Packing.Layout.{IsByte}
use retriever.Os.World.{World, Bytes, Attempt, regular}
use retriever.Os.Files.{lookup, resolve, entries}
use retriever.Os.Triples.{Ends, Contract}
use retriever.Os.Calm.{IsSound, Never}
use retriever.Socket.Stream.{stream}
use retriever.Sha256.Padding.{sha256}
use retriever.Frame.{payload_cap, t_ok, t_hello}
use retriever.Frame.Writing.{frame_bytes}
use retriever.Transfer.Path.{dir_max, max_name, split_path}
use retriever.Transfer.Partial.{scan_entries}
use retriever.Transfer.Resuming.{prefix_of, entry}
use retriever.Conversation.Frames.{Same, Talking}
use retriever.Conversation.Search.{Kept, partial_of}
use retriever.Conversation.Download.{Missing}
use retriever.Conversation.Asked.{offers}
use retriever.Conversation.Get.{asks}
use retriever.Conversation.Mismatch.{mismatch_report, do_get-mismatched}
use retriever.Main.{Command, perform, main, exit_server}
use retriever.Main.Usage.{Usage}
use retriever.Main.Conversing.{IsReachable, host_of, port_of, main-converses}
use retriever.Main.Telling.{Talking-unlinked, failing}

-- Where the command line asks for a GET, nothing stands at the destination, its directory has just
-- one partial file for it, which is not empty and whose name has the token of a hash `d`, an address
-- takes the connection, no call of the C library fails, and the server answers HELLO with an OK
-- frame and GET with an OK frame that has a size, the length of the partial file as the offset, `d`,
-- and then the bytes behind that offset, but the partial file and these bytes together do not have
-- the hash `d`: `main` exits with 1, `EXIT_SERVER`, nothing stands at the destination, and the partial file is gone. All
-- that it has sent is the HELLO frame and the GET frame; all that it has printed is where it resumed
-- and that the hash is another. The name and the path are within their limits.
pub main-mismatched :
    (argv : List Bytes) (name dest dir base d c tail greeting rest : Bytes) (n : ℕ)
    (results : List Attempt) (w : World)
    → Usage argv (Command.get name dest)
    → w.addresses (host_of argv) (port_of argv) ≡ some results
    → IsReachable results
    → w.faults ≡ []
    → IsSound w.rooms
    → length d ≡ 32
    → All IsByte d
    → ¬ (sha256 (c ++ tail) ≡ d)
    → split_path dest dir_max (max_name + 1) ≡ some (dir, base)
    → lookup (resolve dest) w.files ≡ none
    → scan_entries (prefix_of base) (entries (resolve dir) w.files) 0 [] ≡ (1, entry base d)
    → lookup (resolve (partial_of dest dir base d)) w.files ≡ some (regular c)
    → 0 < length c
    → length (c ++ tail) < 2 ^ 64
    → length name ≤ max_name
    → n < 2 ^ 64
    → length greeting ≤ payload_cap
    → stream w.inbox
      ≡ frame_bytes t_ok greeting ++ offers n (length (c ++ tail)) (length c) d (tail ++ rest)
    → Ends
        (λ status w'.
          (status ≡ exit_server)
          × Talking
              (λ fs. Missing (partial_of dest dir base d) fs × Missing dest fs)
              ((w.sent ++ frame_bytes t_hello []) ++ asks name (length c) d)
              (w.log ++ mismatch_report name (length c))
              rest
              w')
        (λ _. ⊥)
        (main argv w)
main-mismatched argv name dest dir base d c tail greeting rest n results w usage found reachable
      clear sound digested bytes other parts missing only held begun small short fits welcome
      comes =
    let kept : Kept w.files dest dir base d c = record {
      parts = parts;
      bytes = bytes;
      long = omega (arith, digested);
      only = only;
      held = held;
    } in
    let sent : Bytes = w.sent ++ frame_bytes t_hello [] in
    let replies : Bytes = offers n (length (c ++ tail)) (length c) d (tail ++ rest) in
    let performs : Contract Never (Talking (Same w.files) sent w.log replies)
        (perform (Command.get name dest)) (λ _. Never)
        (Talking (λ fs. Missing (partial_of dest dir base d) fs × Missing dest fs)
          (sent ++ asks name (length c) d) (w.log ++ mismatch_report name (length c)) rest) =
      unfold perform in
      do_get-mismatched w.files sent w.log name dest dir base d c tail rest n kept digested other
        missing begun short fits small in
    main-converses (failing greeting replies welcome (λ v t. Talking-unlinked v t) performs) argv
      results w usage found reachable
      (record {
        stored = refl;
        said = refl;
        shown = refl;
        clear = clear;
        sound = sound;
        comes = comes;
      })
