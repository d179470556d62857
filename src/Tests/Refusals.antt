-- ===== src/Tests/Refusals.antt =====
-- Whole conversations with a server that refuses, or sends something else.
use retriever.Base.{◌≡◌, refl, [], ◌∷◌, ◌++◌, some, arith}
use retriever.Packing.Layout.{big_endian}
use retriever.Os.World.{World, Bytes, regular}
use retriever.Os.Files.{lookup, resolve, components, is_absolute, key_eq}
use retriever.Os.Triples.{Ends}
use retriever.Frame.{t_ok, t_hello}
use retriever.Frame.Writing.{frame_bytes}
use retriever.Transfer.Put.Integrity.{put_bytes}
use retriever.Conversation.Frames.{Same, Talking}
use retriever.Main.{word_put, main}
use retriever.Main.Usage.{puts_as}
use retriever.Main.Refused.{main-Refused}
use retriever.Main.Rejected.{main-rejected}
use retriever.Conversation.Rejected.{reject_replies, reject_report}
use retriever.Main.Mismatch.{main-mismatched}
use retriever.Conversation.Mismatch.{mismatch_report}
use retriever.Conversation.Asked.{offers}
use retriever.Conversation.Get.{asks}
use retriever.Conversation.Download.{Missing}
use retriever.Sha256.Padding.{sha256}
use retriever.Packing.Layout.{IsByte}
use retriever.Base.{ℕ, zero, suc, replicate, All, ◌∙◌}
use retriever.Main.{Command, exit_server}
use retriever.Frame.{t_error}
use retriever.Conversation.Errors.{error_bytes}
use retriever.Conversation.Refused.{Refused}
use retriever.Main.{word_get}
use retriever.Main.Usage.{gets}
use retriever.Base.{sym, none}
use retriever.Sha256.Hex.{sha256_hex, hex_loop}
use retriever.Tests.Client.{abc_hash}
use retriever.Os.Files.{entries, name_in}
use retriever.Transfer.Path.{basename_of, last_slash}
use retriever.Transfer.Path.{format_partial}
use retriever.Transfer.Partial.{scan_entries, is_partial}
use retriever.Transfer.Resuming.{prefix_of, entry}
use retriever.Conversation.Search.{partial_of}
use retriever.Tests.Client.{sends, quiet, abc, f, command}
use retriever.Tests.Hash.{sha256-abc}
use retriever.Tests.Outcomes.{stream-sends}
use retriever.Tests.Conversations.{answering, abc_stored, f_parts, no_hash}

-- "no", with the code 2
abbrev refusing : Bytes
refusing = frame_bytes t_ok [] ++ (frame_bytes t_error (error_bytes 2 (110 ∷ 111 ∷ [])) ++ (5 ∷ []))

main-Refused_example :
    Ends
      (λ status w'.
        (status ≡ exit_server)
        × Refused
            (Command.put f f)
            (answering refusing).files
            (frame_bytes t_hello [])
            []
            2
            (110 ∷ 111 ∷ [])
            (5 ∷ [])
            w')
      (λ _. ⊥)
      (main (command word_put (f ∷ f ∷ [])) (answering refusing))
unfolding big_endian
main-Refused_example =
    main-Refused (command word_put (f ∷ f ∷ [])) (Command.put f f) 2 (110 ∷ 111 ∷ []) [] (5 ∷ []) _
      (answering refusing) (puts_as _ _ _ f f) refl tt refl tt (abc, (abc_stored, omega arith))
      (omega arith) (omega arith, (omega arith, tt)) (omega arith) (omega arith) (omega arith)
      (stream-sends refusing)

abbrev half_of : Bytes → World
half_of bytes = record quiet {
  inbox = sends bytes;
  files = ((entry f no_hash ∷ []), regular (97 ∷ [])) ∷ [];
}

abbrev wrong_session : Bytes
wrong_session = frame_bytes t_ok [] ++ offers 50 3 1 no_hash (98 ∷ 99 ∷ 5 ∷ [])

wrong_alone :
    scan_entries (prefix_of f) (entries (resolve (b'.' ∷ [])) (half_of []).files) 0 []
    ≡ (1, entry f no_hash)
unfolding scan_entries is_partial entries name_in resolve components is_absolute sha256_hex hex_loop
    format_partial
wrong_alone = refl

wrong_held :
    lookup (resolve (partial_of f (b'.' ∷ []) f no_hash)) (half_of []).files
    ≡ some (regular (97 ∷ []))
unfolding lookup resolve components is_absolute key_eq sha256_hex hex_loop format_partial last_slash
wrong_held = refl

f_absent : lookup (resolve f) (half_of []).files ≡ none
unfolding lookup resolve components is_absolute key_eq sha256_hex hex_loop format_partial
f_absent = refl

other_hash : ¬ (sha256 abc ≡ no_hash)
other_hash = λ same. let wrong : abc_hash ≡ no_hash = sym sha256-abc ∙ same in cc

zero_bytes : (n : ℕ) → All IsByte (replicate n 0)
zero_bytes zero = tt
zero_bytes (suc n) = (omega arith, zero_bytes n)

main-mismatched_example :
    Ends
      (λ status w'.
        (status ≡ exit_server)
        × Talking
            (λ fs. Missing (partial_of f (b'.' ∷ []) f no_hash) fs × Missing f fs)
            (frame_bytes t_hello [] ++ asks f 1 no_hash)
            (mismatch_report f 1)
            (5 ∷ [])
            w')
      (λ _. ⊥)
      (main (command word_get (f ∷ [])) (half_of wrong_session))
unfolding basename_of last_slash
main-mismatched_example =
    main-mismatched (command word_get (f ∷ [])) f f (b'.' ∷ []) f no_hash (97 ∷ []) (98 ∷ 99 ∷ [])
      [] (5 ∷ []) 50 _ (half_of wrong_session) (gets _ _ _ f) refl tt refl tt refl (zero_bytes 32)
      other_hash f_parts f_absent wrong_alone wrong_held (omega arith) (omega arith) (omega arith)
      (omega arith) (omega arith) (stream-sends wrong_session)

abbrev rejecting : Bytes
rejecting = frame_bytes t_ok [] ++ reject_replies 1 (7 ∷ []) 2 (110 ∷ 111 ∷ []) (5 ∷ [])

main-rejected_example :
    Ends
      (λ status w'.
        (status ≡ exit_server)
        × Talking
            (Same (answering rejecting).files)
            (frame_bytes t_hello [] ++ put_bytes abc f 1)
            (reject_report 1 2 (110 ∷ 111 ∷ []))
            (5 ∷ [])
            w')
      (λ _. ⊥)
      (main (command word_put (f ∷ f ∷ [])) (answering rejecting))
unfolding big_endian
main-rejected_example =
    main-rejected (command word_put (f ∷ f ∷ [])) f f abc (7 ∷ []) (110 ∷ 111 ∷ []) [] (5 ∷ []) 1 2
      _ (answering rejecting) (puts_as _ _ _ f f) refl tt refl tt abc_stored (omega arith)
      (omega arith) (omega arith) (omega arith, tt) (omega arith) (omega arith)
      (omega arith, (omega arith, tt)) (omega arith) (omega arith) (omega arith)
      (stream-sends rejecting)
