-- ===== src/Tests/Conversations.antt =====
-- Whole conversations with a server that keeps the protocol.
use retriever.Base.{◌≡◌, refl, List, [], ◌∷◌, ◌++◌, some, arith, map}
use retriever.Packing.Layout.{big_endian}
use retriever.Os.World.{World, Bytes, Room, takes, regular, listed}
use retriever.Os.Files.{lookup, resolve, components, is_absolute, key_eq}
use retriever.Os.Triples.{Ends}
use retriever.Frame.{t_ok, t_list}
use retriever.Frame.Writing.{frame_bytes}
use retriever.Session.Names.{join}
use retriever.Transfer.Put.Integrity.{put_bytes}
use retriever.Conversation.Frames.{Same}
use retriever.Conversation.Put.{put_replies, put_report}
use retriever.Main.{word_list, word_put, main}
use retriever.Main.Usage.{lists, puts_as}
use retriever.Main.Telling.{Told}
use retriever.Main.Uploads.{main-uploads}
use retriever.Main.Lists.{main-lists}
use retriever.Main.Resumes.{main-resumes}
use retriever.Main.Fetches.{main-fetches}
use retriever.Conversation.Fresh.{asks_all}
use retriever.Transfer.Get.Completing.{IsPlain}
use retriever.Os.World.{downloaded}
use retriever.Conversation.Asked.{offers}
use retriever.Sha256.Padding.{sha256}
use retriever.Base.{replicate}
use retriever.Main.{word_get}
use retriever.Main.Usage.{gets}
use retriever.Base.{◌+◌, sym, subst, none}
use retriever.Sha256.Hex.{sha256_hex, hex_loop}
use retriever.Tests.Client.{abc_hash}
use retriever.Os.Files.{entries, name_in}
use retriever.Transfer.Path.{split_path, basename_of, last_slash, split_dir, dir_max, max_name}
use retriever.Transfer.Path.{format_partial}
use retriever.Transfer.Partial.{scan_entries, is_partial}
use retriever.Transfer.Resuming.{prefix_of, entry}
use retriever.Conversation.Search.{partial_of}
use retriever.Conversation.Download.{File}
use retriever.Conversation.Get.{get_replies, get_bytes, get_report}
use retriever.Tests.Client.{sends, quiet, abc, f, command}
use retriever.Tests.Hash.{sha256-abc}
use retriever.Tests.Outcomes.{stream-sends}

-- A world with a file, room for four bytes, a signal, and then all the room there is.
abbrev pub answering : Bytes → World
answering bytes = record quiet {
  inbox = sends bytes;
  rooms = takes 4 ∷ Room.signal ∷ [];
  files = ((f ∷ []), regular abc) ∷ [];
}

pub abc_stored : lookup (resolve f) (answering []).files ≡ some (regular abc)
unfolding lookup resolve components is_absolute key_eq
abc_stored = refl

abbrev storing_session : Bytes
storing_session = frame_bytes t_ok [] ++ put_replies 1 [] [] (frame_bytes t_ok (9 ∷ []) ++ (5 ∷ []))

main-uploads_example :
    Ends
      (Told
        (Same (answering storing_session).files)
        []
        []
        (5 ∷ [])
        (put_bytes abc f 1)
        (put_report f f abc 1))
      (λ _. ⊥)
      (main (command word_put (f ∷ f ∷ [])) (answering storing_session))
unfolding big_endian
main-uploads_example =
    main-uploads (command word_put (f ∷ f ∷ [])) f f abc [] [] [] (9 ∷ []) (5 ∷ []) 1 t_ok _
      (answering storing_session) (puts_as _ _ _ f f) refl tt refl tt abc_stored (omega arith)
      (omega arith) (omega arith) tt (omega arith) (omega arith) (omega arith) (omega arith)
      (omega arith) (stream-sends storing_session)

abbrev two_names : List Bytes
two_names = abc ∷ f ∷ []

abbrev listing : Bytes
listing = frame_bytes t_ok [] ++ (frame_bytes t_ok (join two_names) ++ (frame_bytes t_ok [] ++ []))

main-lists_example :
    Ends
      (Told
        (Same (answering listing).files)
        []
        []
        []
        (frame_bytes t_list [])
        (map listed two_names))
      (λ _. ⊥)
      (main (command word_list []) (answering listing))
unfolding join
main-lists_example =
    main-lists (command word_list []) two_names [] [] [] t_ok _ (answering listing) (lists _ _ _)
      refl tt refl tt (omega arith) (omega arith) (omega arith) (omega arith) (omega arith)
      (stream-sends listing)

-- The first byte of the file is there.
abbrev half_there : Bytes → World
half_there bytes = record quiet {
  inbox = sends bytes;
  files = ((entry f abc_hash ∷ []), regular (97 ∷ [])) ∷ [];
}

abbrev resuming_session : Bytes
resuming_session =
    frame_bytes t_ok [] ++ get_replies 50 (97 ∷ []) (98 ∷ 99 ∷ []) (frame_bytes t_ok [] ++ (5 ∷ []))

half_alone :
    scan_entries (prefix_of f) (entries (resolve (b'.' ∷ [])) (half_there []).files) 0 []
    ≡ (1, entry f abc_hash)
unfolding scan_entries is_partial entries name_in resolve components is_absolute sha256_hex hex_loop
    format_partial
half_alone = refl

half_held :
    lookup (resolve (partial_of f (b'.' ∷ []) f abc_hash)) (half_there []).files
    ≡ some (regular (97 ∷ []))
unfolding lookup resolve components is_absolute key_eq sha256_hex hex_loop format_partial last_slash
half_held = refl

f_missing : lookup (resolve f) (half_there []).files ≡ none
unfolding lookup resolve components is_absolute key_eq sha256_hex hex_loop format_partial
f_missing = refl

pub f_parts : split_path f dir_max (max_name + 1) ≡ some ((b'.' ∷ []), f)
unfolding split_path basename_of last_slash split_dir
f_parts = refl

main-resumes_example :
    Ends
      (Told (File f abc) [] [] (5 ∷ []) (get_bytes f (97 ∷ []) (98 ∷ 99 ∷ [])) (get_report f f 1 3))
      (λ _. ⊥)
      (main (command word_get (f ∷ [])) (half_there resuming_session))
unfolding basename_of last_slash
main-resumes_example =
    main-resumes (command word_get (f ∷ [])) f f (b'.' ∷ []) f (97 ∷ []) (98 ∷ 99 ∷ []) [] []
      (5 ∷ []) 50 t_ok _ (half_there resuming_session) (gets _ _ _ f) refl tt refl tt f_parts
      f_missing
      (subst
        (λ (d : Bytes).
          scan_entries (prefix_of f) (entries (resolve (b'.' ∷ [])) (half_there []).files) 0 []
          ≡ (1, entry f d))
        (sym sha256-abc) half_alone)
      (subst
        (λ (d : Bytes).
          lookup (resolve (partial_of f (b'.' ∷ []) f d)) (half_there []).files
          ≡ some (regular (97 ∷ [])))
        (sym sha256-abc) half_held)
      (omega arith) (omega arith) (omega arith) (omega arith) (omega arith) (omega arith)
      (omega arith) (stream-sends resuming_session)

-- A hash that no file here has.
abbrev pub no_hash : Bytes
no_hash = replicate 32 0

-- Two partial files, of which none is chosen.
abbrev two_there : Bytes → World
two_there bytes = record quiet {
  inbox = sends bytes;
  files =
      ((entry f abc_hash ∷ []), regular (97 ∷ []))
      ∷ (((entry f no_hash ∷ []), regular (98 ∷ [])) ∷ []);
}

abbrev fetching : Bytes
fetching =
    frame_bytes t_ok [] ++ offers 51 3 0 (sha256 abc) (abc ++ (frame_bytes t_ok [] ++ (5 ∷ [])))

two_counted :
    ¬ ((scan_entries (prefix_of f) (entries (resolve (b'.' ∷ [])) (two_there []).files) 0 []).0 ≡ 1)
unfolding scan_entries is_partial entries name_in resolve components is_absolute sha256_hex hex_loop
    format_partial
two_counted = λ one. absurd (omega (arith, one))

f_nowhere : lookup (resolve f) (two_there []).files ≡ none
unfolding lookup resolve components is_absolute key_eq sha256_hex hex_loop format_partial
f_nowhere = refl

place-IsPlain :
    IsPlain (lookup (resolve (partial_of f (b'.' ∷ []) f abc_hash)) (two_there []).files)
unfolding lookup resolve components is_absolute key_eq sha256_hex hex_loop format_partial last_slash
place-IsPlain = tt

main-fetches_example :
    Ends
      (Told (File f abc) [] [] (5 ∷ []) (asks_all f) (downloaded f 3 f ∷ []))
      (λ _. ⊥)
      (main (command word_get (f ∷ [])) (two_there fetching))
unfolding basename_of last_slash
main-fetches_example =
    main-fetches (command word_get (f ∷ [])) f f (b'.' ∷ []) f abc [] [] (5 ∷ []) 51 t_ok _
      (two_there fetching) (gets _ _ _ f) refl tt refl tt f_parts f_nowhere two_counted
      (subst
        (λ (d : Bytes).
          IsPlain (lookup (resolve (partial_of f (b'.' ∷ []) f d)) (two_there []).files))
        (sym sha256-abc) place-IsPlain)
      (omega arith) (omega arith) (omega arith) (omega arith) (omega arith) (omega arith)
      (stream-sends fetching)
