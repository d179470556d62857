-- ===== src/Tests/Transfers.antt =====
-- GET and PUT alone, and the theorems on them at these runs.
use retriever.Transfer.Resuming.{prefix_of, entry, scan_entries-format_partial}
use retriever.Transfer.Partial.{scan_entries, found_at}
use retriever.Transfer.Path.{token_size}
use retriever.Base.{true, none, ◌≡◌, refl, [], ◌∷◌, ◌++◌}
use retriever.Packing.Layout.{big_endian}
use retriever.Os.World.{takes, Room, World, regular}
use retriever.Os.Program.{Run}
use retriever.Frame.Encoding.{encode_header}
use retriever.Transfer.Get
use retriever.Transfer.Put
use retriever.Base.{false}
use retriever.Os.Files.{resolve, lookup, components, is_absolute, key_eq}
use retriever.Os.Triples.{Ends}
use retriever.Socket.Stream.{stream}
use retriever.Sha256.File.{sha256_file}
use retriever.Sha256.Reading.{HashOf, SameFiles, sha256_file-HashOf}
use retriever.Transfer.Get.{parse_meta}
use retriever.Transfer.Get.Integrity.{Got, meta_bytes, body_bytes, do_get-Got}
use retriever.Os.Program.{ok}
use retriever.Os.Steps.{world_of}
use retriever.Tests.Client.{run, accepted, sends, quiet, abc, abc_hash, f}
use retriever.Transfer.Put.Integrity.{Uploaded, do_put-Uploaded}
use retriever.Transfer.Requests.{request, send_get-eq, send_put-eq}
use retriever.Transfer.Get.{Resume, send_get}
use retriever.Transfer.Put.{send_put}
use retriever.Frame.{write_frame, t_get, t_put}
use retriever.Base.{arith, replicate}
use retriever.Base.{some}
use retriever.Frame.{t_ok}
use retriever.Frame.Writing.{frame_bytes, frame_lasts}
use retriever.Socket.Write.{lasts, spend}
use retriever.Session.{do_list}
use retriever.Session.Names.{Listed, do_list-Listed}
use retriever.Os.World.{Bytes, segment}
use retriever.Base.{List}
use retriever.Transfer.Get.{Meta, body_size}
use retriever.Sha256.Padding.{sha256}
use retriever.Sha256.Success.{calm, sha256_file-sha256}
use retriever.Sha256.Hex.{sha256_hex}
use retriever.Transfer.Partial.{scan_token}
use retriever.Transfer.Path.{suffix, token_size}
use retriever.Sha256.Hex.{hex_loop}
use retriever.Os.World.{Message, closed, resuming, closed_early, interrupted}
use retriever.Os.Program.{err}
use retriever.Base.{Option, none}
use retriever.Frame.Encoding.{encode_header}
use retriever.Packing.Layout.{big_endian}
use retriever.Transfer.Token.{scan_token-sha256_hex}
use retriever.Base.{take}

-- GET alone, where the first byte is there, on a connection with the reply.
unfoldable going_on : Bytes
unfolding big_endian encode_header
going_on =
    encode_header 0x80 50
    ++ (big_endian 8 3 ++ (big_endian 8 1 ++ (abc_hash ++ (b'b' ∷ b'c' ∷ []))))

abbrev partial_f : Bytes
partial_f = (b'.' ∷ f) ++ (b'.' ∷ (sha256_hex abc_hash token_size ++ suffix))

abbrev at_reply : World
at_reply = record quiet {
  inbox = sends going_on;
  files =
      (
        ((b'.' ∷ f) ++ (b'.' ∷ (sha256_hex abc_hash token_size ++ suffix))) ∷ [],
        regular (b'a' ∷ []),
      )
      ∷ [];
}

get_run : Run (Unit {0})
unfolding run going_on sha256_hex hex_loop
get_run = Get.do_get f f at_reply

get_run-ok : get_run ≡ ok tt (world_of get_run)
unfolding get_run
get_run-ok = refl

do_get-Got_example :
    Got f at_reply.files
      (parse_meta (meta_bytes (stream at_reply.inbox)))
      (body_bytes (stream at_reply.inbox))
      (world_of get_run)
unfolding get_run
do_get-Got_example = do_get-Got f f at_reply (world_of get_run) get_run-ok

abbrev with_file : World
with_file = record quiet { files = ((f ∷ []), regular abc) ∷ []; faults = false ∷ true ∷ [] }

sha256_file-HashOf_example :
    Ends (HashOf (resolve f) with_file.files) (SameFiles with_file.files) (sha256_file f with_file)
sha256_file-HashOf_example = sha256_file-HashOf f with_file

-- A server that goes on from the second byte, on a connection that takes five bytes at a time.
abbrev pub at_offer : World
at_offer = record quiet {
  inbox = sends (encode_header 0x80 8 ++ (big_endian 8 1 ++ accepted));
  rooms = takes 4 ∷ Room.signal ∷ takes 4 ∷ [];
  files = ((f ∷ []), regular abc) ∷ [];
}

put_run : Run (Unit {0})
unfolding run accepted big_endian encode_header
put_run = Put.do_put f f at_offer

put_run-ok : put_run ≡ ok tt (world_of put_run)
unfolding put_run
put_run-ok = refl

do_put-Uploaded_example : Uploaded f f at_offer.files [] (world_of put_run)
unfolding put_run
do_put-Uploaded_example = do_put-Uploaded f f at_offer (world_of put_run) put_run-ok

abbrev from_start : Resume
from_start = record { existing = none; offset = 0; token = replicate 8 0 }

send_get-eq_example :
    send_get from_start f quiet ≡ write_frame t_get (request 0 (replicate 8 0) f) quiet
send_get-eq_example = send_get-eq from_start f quiet refl (omega arith)

send_put-eq_example : send_put 3 abc_hash f quiet ≡ write_frame t_put (request 3 abc_hash f) quiet
send_put-eq_example = send_put-eq 3 abc_hash f quiet refl (omega arith)

-- A reply with two names and an empty one.
abbrev two_names : List Bytes
two_names = (b'a' ∷ []) ∷ (b'b' ∷ b'c' ∷ []) ∷ []

abbrev gaps : Bytes
gaps = 0 ∷ b'a' ∷ 0 ∷ 0 ∷ b'b' ∷ b'c' ∷ []

abbrev at_gaps : World
at_gaps = record quiet {
  inbox =
      segment 0x52 (0x54 ∷ 0x52 ∷ 0x56 ∷ 3 ∷ 0x80 ∷ [])
      ∷ segment 0 (0 ∷ 0 ∷ 0 ∷ 0 ∷ 0 ∷ 0 ∷ 6 ∷ gaps)
      ∷ [];
}

gaps_come : stream at_gaps.inbox ≡ frame_bytes t_ok gaps ++ []
unfolding stream encode_header big_endian
gaps_come = refl

sends_list : frame_lasts 0 at_gaps.rooms ≡ true
unfolding lasts spend
sends_list = refl

do_list-Listed_example : (w' : World) × ((do_list at_gaps ≡ ok tt w') × Listed gaps [] at_gaps w')
do_list-Listed_example = do_list-Listed gaps [] at_gaps sends_list (omega arith) refl gaps_come

abbrev at_names : World
at_names = record quiet {
  inbox =
      segment 0x52 (
        0x54 ∷ 0x52 ∷ 0x56 ∷ 3 ∷ 0x80 ∷ 0 ∷ 0 ∷ 0 ∷ 0 ∷ 0 ∷ 0 ∷ 0 ∷ 4 ∷ b'a' ∷ 0 ∷ b'b' ∷ b'c' ∷ [])
      ∷ [];
}

stored_file : lookup (resolve f) with_file.files ≡ some (regular abc)
unfolding lookup resolve components is_absolute key_eq
stored_file = refl

sha256_file-sha256_example : sha256_file f (calm with_file) ≡ ok (sha256 abc) (calm with_file)
sha256_file-sha256_example = sha256_file-sha256 f abc with_file stored_file

scan_token-sha256_hex_example :
    scan_token 8 (sha256_hex abc_hash 8 ++ suffix) ≡ some (take 8 abc_hash)
scan_token-sha256_hex_example = scan_token-sha256_hex abc_hash suffix 8 (omega arith) (omega arith)

scan_entries-format_partial_example :
    (scan_entries (prefix_of f) (entry f abc_hash ∷ []) 0 [] ≡ (1, entry f abc_hash))
    × (found_at f (entry f abc_hash) 2
        ≡ some (record { path = f; size = 2; token = take token_size abc_hash }))
scan_entries-format_partial_example =
    scan_entries-format_partial f abc_hash f 2 (omega arith) (omega arith) (omega arith)

-- A server that offers to go on from the fourth byte of three: the client takes the offer, and reads
-- on until the connection is closed.
unfoldable past_total : Bytes
unfolding big_endian encode_header
past_total =
    encode_header 0x80 50
    ++ (big_endian 8 3 ++ (big_endian 8 4 ++ (abc_hash ++ (1 ∷ 2 ∷ 3 ∷ 4 ∷ []))))

abbrev told : Run (Unit {0}) → Option (List Message)
told (err w) = some w.log
told _ = none

overrun :
    told (Get.do_get f f (record at_reply { inbox = sends past_total ++ (closed ∷ []) }))
    ≡ some (resuming f 4 ∷ closed_early ∷ interrupted ∷ [])
unfolding run past_total sha256_hex hex_loop
overrun = refl
