-- ===== src/Tests/Outcomes.antt =====
-- The outcomes of whole runs: what is left behind, and success against a correct server.
use retriever.Base.{none, ◌≡◌, refl, [], ◌∷◌, ◌++◌}
use retriever.Os.World.{takes, Room, World, regular}
use retriever.Frame.Encoding.{encode_header}
use retriever.Transfer.Get
use retriever.Main.{main}
use retriever.Main.Resources.{main-restores}
use retriever.Base.{◌+◌, append-nil}
use retriever.Os.World.{Key}
use retriever.Transfer.Path.{dir_max, max_name, split_path, basename_of, last_slash, split_dir}
use retriever.Transfer.Get.Appending.{Holds}
use retriever.Transfer.Get.Completing.{IsPlain}
use retriever.Transfer.Get.Delivery.{offer, do_get-delivers}
use retriever.Os.World.{closed}
use retriever.Socket.Stream.{shut, ending}
use retriever.Os.Triples.{Anything}
use retriever.Os.Untouched.{Stands}
use retriever.Transfer.Get.Untouched.{do_get-keeps_dest}
use retriever.Transfer.Get.Interrupted.{Prefixed, download_loop-Prefixed}
use retriever.Main.Untouched.{main-Untouched, IsElsewhere}
use retriever.Transfer.Get.Apart.{IsPart, other-IsApart}
use retriever.Transfer.Path.{suffix, basename_of, last_slash}
use retriever.Base.{
  get_or, replicate, length, length-append, drop, drop-append, ap, subst, ◌++◌, ◌∷◌, [],
}
use retriever.Main.{parse_get}
use retriever.Main.Usage.{Usage, Usage-Accepts}
use retriever.Main.{Command, parse_command}
use retriever.Main.Exits.{Exit, main-ends}
use retriever.Os.Files.{resolve, lookup, key_eq, is_absolute, components}
use retriever.Os.Triples.{Settles, Ends}
use retriever.Os.Resources.{Uses, Waits}
use retriever.Socket.Stream.{stream}
use retriever.Transfer.Get.{parse_meta}
use retriever.Main.{word_get}
use retriever.Tests.Client.{served, accepted, sends, quiet, abc, abc_hash, f, command}
use retriever.Transfer.Get.{Resume, send_get}
use retriever.Base.{arith}
use retriever.Base.{some}
use retriever.Frame.{t_ok}
use retriever.Frame.Writing.{frame_bytes, frame_lasts}
use retriever.Socket.Write.{lasts}
use retriever.Os.World.{Bytes}
use retriever.Base.{List}
use retriever.Transfer.Get.{Meta, body_size}
use retriever.Base.{take}
use retriever.Base.{sym, ◌∙◌}
use retriever.Os.World.{no_socket, refused, connected}
use retriever.Frame.{t_error}
use retriever.Session.{do_hello}
use retriever.Session.Greeting.{do_hello-answered}
use retriever.Socket.Stream.{open_ended}
use retriever.Main.{exit_success, word_o}
use retriever.Main.Usage.{gets_as}
use retriever.Main.Transferred.{main-delivers}

-- The server is gone in the middle of the transfer.
abbrev lost : World
lost = record quiet { inbox = sends (accepted ++ take 30 (served abc_hash abc)) ++ (closed ∷ []) }

main-restores_example :
    Settles (Waits shut) (λ _. Uses shut 0 0 0) (λ _. ⊥) (main (command word_get (f ∷ [])) lost)
unfolding accepted served ending
main-restores_example = main-restores (command word_get (f ∷ [])) lost

main-ends_example :
    Ends (Exit (command word_get (f ∷ [])) lost) (λ _. ⊥) (main (command word_get (f ∷ [])) lost)
unfolding accepted served ending
main-ends_example = main-ends (command word_get (f ∷ [])) lost (λ e. cc)

do_get-keeps_dest_example :
    Settles
      (Stands (resolve f) none)
      (λ _. Anything)
      (Stands (resolve f) none)
      (Get.do_get f f
        (record lost { inbox = sends (take 60 (served abc_hash abc)) ++ (closed ∷ []) }))
unfolding lookup
do_get-keeps_dest_example =
    do_get-keeps_dest f f
      (record lost { inbox = sends (take 60 (served abc_hash abc)) ++ (closed ∷ []) })

-- Two of five bytes, then the server closes the connection.
abbrev broken : World
broken = record quiet {
  inbox = sends (4 ∷ 5 ∷ []) ++ (closed ∷ []);
  files = ((f ∷ []), regular abc) ∷ [];
}

download_loop-Prefixed_example :
    Settles
      (Prefixed (resolve f) abc (stream broken.inbox) 5)
      (λ _. Prefixed (resolve f) abc (stream broken.inbox) 5)
      (Prefixed (resolve f) abc (stream broken.inbox) 5)
      (Get.download_loop 5 5 f broken)
unfolding lookup key_eq resolve is_absolute components
download_loop-Prefixed_example = download_loop-Prefixed 5 f abc broken refl

-- A GET beside a file whose name is that of a partial file but for its end.
abbrev get_line : List Bytes
get_line = command word_get (f ∷ [])

abbrev note : Bytes
note = (b'.' ∷ f) ++ (b'.' ∷ (replicate 16 b'a' ++ (b'.' ∷ b'n' ∷ b'o' ∷ b't' ∷ b'e' ∷ [])))

abbrev beside_note : World
beside_note = record quiet {
  inbox = sends (accepted ++ (served abc_hash abc ++ accepted));
  files = ((note ∷ []), regular abc) ∷ [];
}

note-not-IsPart : ¬ (IsPart (note ∷ []))
note-not-IsPart ([], (c, e)) =
    let same : note ≡ c ++ suffix = cc in
    let long : length c ≡ 19 =
      omega (arith, ap (λ (s : Bytes). length s) same, length-append c suffix) in
    let end : b'.' ∷ b'n' ∷ b'o' ∷ b't' ∷ b'e' ∷ [] ≡ suffix =
      ap (λ (s : Bytes). drop 19 s) same ∙ drop-append 19 c suffix long in
    absurd (omega (arith, ap (λ (s : Bytes). get_or s 1 0) end))
note-not-IsPart (d ∷ [], (c, e)) = absurd cc
note-not-IsPart (d ∷ b ∷ dirs, (c, e)) = absurd cc

get_line-IsElsewhere :
    (name dest : Bytes) → Usage get_line (Command.get name dest) → IsElsewhere (note ∷ []) dest
unfolding parse_command parse_get basename_of last_slash key_eq resolve is_absolute components
get_line-IsElsewhere name dest usage =
    let e = Usage-Accepts get_line (Command.get name dest) usage in
    let same : f ≡ dest = cc in
    subst (λ (x : Bytes). IsElsewhere (note ∷ []) x) same
      (refl, other-IsApart f (note ∷ []) note-not-IsPart)

main-Untouched_example :
    Settles
      (Stands (note ∷ []) (some (regular abc)))
      (λ _. Stands (note ∷ []) (some (regular abc)))
      (λ _. ⊥)
      (main get_line beside_note)
unfolding lookup key_eq
main-Untouched_example = main-Untouched get_line (note ∷ []) beside_note get_line-IsElsewhere

pub stream-sends : (bytes : Bytes) → stream (sends bytes) ≡ bytes
unfolding stream
stream-sends [] = refl
stream-sends (b ∷ bs) = append-nil (b ∷ bs)

-- A server that has the file, with more to come behind it.
abbrev delivery : Bytes
delivery = encode_header t_ok 51 ++ (offer abc ++ (abc ++ accepted))

abbrev at_delivery : World
at_delivery = record quiet { inbox = sends delivery; rooms = takes 4 ∷ Room.signal ∷ [] }

abbrev here : Bytes
here = b'.' ∷ []

f-parts : split_path f dir_max (max_name + 1) ≡ some (here, f)
unfolding split_path basename_of last_slash split_dir
f-parts = refl

nothing_there : (k : Key) → IsPlain (lookup k at_delivery.files)
unfolding lookup
nothing_there k = tt

f-missing : lookup (resolve f) at_delivery.files ≡ none
unfolding lookup
f-missing = refl

do_get-delivers_example : Ends (λ _. Holds (resolve f) abc) (λ _. ⊥) (Get.do_get f f at_delivery)
do_get-delivers_example =
    do_get-delivers f f here f abc accepted 51 at_delivery refl tt (stream-sends delivery)
      (omega arith) (omega arith) (omega arith) f-parts f-missing (nothing_there _)

do_hello-answered_example :
    Ends
      (λ _ w'. (t_error ≡ t_ok) × (stream w'.inbox ≡ []))
      (λ _. ¬ (t_error ≡ t_ok))
      (do_hello (record quiet { inbox = sends (frame_bytes t_error (1 ∷ 0 ∷ [])) }))
unfolding frame_lasts lasts
do_hello-answered_example =
    do_hello-answered t_error (1 ∷ 0 ∷ []) []
      (record quiet { inbox = sends (frame_bytes t_error (1 ∷ 0 ∷ [])) }) refl (omega arith)
      (omega arith) refl
      (stream-sends (frame_bytes t_error (1 ∷ 0 ∷ []))
        ∙ sym (append-nil (frame_bytes t_error (1 ∷ 0 ∷ []))))

-- The whole session, up to the close by the server.
abbrev session : Bytes
session = frame_bytes t_ok [] ++ delivery

abbrev in_session : World
in_session = record quiet {
  inbox = sends session ++ (closed ∷ []);
  rooms = takes 4 ∷ Room.signal ∷ [];
}

stream-closed : (bytes : Bytes) → stream (sends bytes ++ (closed ∷ [])) ≡ bytes
unfolding stream
stream-closed [] = refl
stream-closed (b ∷ bs) = append-nil (b ∷ bs)

ending-closed : (bytes : Bytes) → ¬ (ending (sends bytes ++ (closed ∷ [])) ≡ open_ended)
unfolding ending
ending-closed [] e = cc
ending-closed (b ∷ bs) e = cc

nowhere : (k : Key) → IsPlain (lookup k in_session.files)
unfolding lookup
nowhere k = tt

f-nowhere : lookup (resolve f) in_session.files ≡ none
unfolding lookup
f-nowhere = refl

main-delivers_example :
    Ends
      (λ code w'. (code ≡ exit_success) × Holds (resolve f) abc w')
      (λ _. ⊥)
      (main (command word_get (f ∷ word_o ∷ f ∷ [])) in_session)
main-delivers_example =
    main-delivers (command word_get (f ∷ word_o ∷ f ∷ [])) f f here f abc [] accepted 51
      (no_socket ∷ refused ∷ connected ∷ []) in_session
      (gets_as (b'r' ∷ []) (b'h' ∷ []) (b'9' ∷ []) f f) refl tt refl tt (ending-closed session)
      (stream-closed session) (omega arith) (omega arith) (omega arith) (omega arith) f-parts
      f-nowhere (nowhere _)
