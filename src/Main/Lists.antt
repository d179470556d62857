-- ===== src/Main/Lists.antt =====
-- The whole client, on a command line that asks for a LIST.
use retriever.Base.{ℕ, ◌≤◌, ◌<◌, ◌≡◌, refl, subst, List, [], ◌++◌, some, length, map, All}
use retriever.Os.World.{World, Bytes, Attempt, listed}
use retriever.Os.Triples.{Ends, Contract}
use retriever.Os.Calm.{IsSound, Never}
use retriever.Socket.Stream.{stream}
use retriever.Frame.{payload_cap, t_ok, t_hello, t_list}
use retriever.Frame.Writing.{frame_bytes}
use retriever.Session.Names.{join, IsName, names-join}
use retriever.Conversation.Frames.{Same, Talking}
use retriever.Conversation.List.{do_list-Talking}
use retriever.Main.{Command, perform, main}
use retriever.Main.Usage.{Usage}
use retriever.Main.Conversing.{IsReachable, host_of, port_of, main-converses}
use retriever.Main.Telling.{Told, telling}

-- Where the command line asks for a LIST, an address takes the connection, no call of the C library
-- fails, and the server answers HELLO with an OK frame, LIST with an OK frame of names, none empty or
-- with a zero byte, joined by zero bytes, and QUIT with any frame: `main` exits with 0. All that it
-- has sent is the frames HELLO, LIST and QUIT in this order, all that it has printed is just these
-- names in their order, no file has changed, and what the server sends behind its last frame is not
-- read.
pub main-lists :
    (argv : List Bytes) (ns : List Bytes) (greeting bye rest : Bytes) (type : ℕ)
    (results : List Attempt) (w : World)
    → Usage argv Command.list
    → w.addresses (host_of argv) (port_of argv) ≡ some results
    → IsReachable results
    → w.faults ≡ []
    → IsSound w.rooms
    → All IsName ns
    → length (join ns) ≤ payload_cap
    → length greeting ≤ payload_cap
    → type < 256
    → length bye ≤ payload_cap
    → stream w.inbox
      ≡ frame_bytes t_ok greeting ++ (frame_bytes t_ok (join ns) ++ (frame_bytes type bye ++ rest))
    → Ends
        (Told (Same w.files) w.sent w.log rest (frame_bytes t_list []) (map listed ns))
        (λ _. ⊥)
        (main argv w)
main-lists argv ns greeting bye rest type results w usage found reachable clear sound named long
      fits byte bye_fits comes =
    let behind : Bytes = frame_bytes type bye ++ rest in
    let sent : Bytes = w.sent ++ frame_bytes t_hello [] in
    let performs : Contract Never
        (Talking (Same w.files) sent w.log (frame_bytes t_ok (join ns) ++ behind))
        (perform Command.list)
        (λ _.
          Talking (Same w.files) (sent ++ frame_bytes t_list []) (w.log ++ map listed ns) behind)
        Never =
      unfold perform in
      subst
        (λ (l : List Bytes).
          Contract Never (Talking (Same w.files) sent w.log (frame_bytes t_ok (join ns) ++ behind))
            (perform Command.list)
            (λ _.
              Talking (Same w.files) (sent ++ frame_bytes t_list []) (w.log ++ map listed l) behind)
            Never)
        (names-join ns named) (do_list-Talking (join ns) behind long) in
    main-converses
      (telling (Same w.files) (Same w.files) w.sent w.log Command.list greeting
        (frame_bytes t_ok (join ns) ++ behind) bye rest (frame_bytes t_list []) (map listed ns) type
        fits byte bye_fits performs)
      argv results w usage found reachable
      (record {
        stored = refl;
        said = refl;
        shown = refl;
        clear = clear;
        sound = sound;
        comes = comes;
      })
