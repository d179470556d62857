-- ===== src/Tests/Client.antt =====
-- Whole runs of the client against a scripted server.
use retriever.Base.{◌+◌, Option, none, length, take, ◌≡◌, refl, ℕ, List, [], ◌∷◌, ◌++◌, some}
use retriever.Base.Memory.{memcpy}
use retriever.Packing
use retriever.Packing.Layout.{big_endian}
use retriever.Os.World.{
  no_socket, refused, connected, World, Bytes, Arrival, segment, Key, Node, regular,
}
use retriever.Os.Program.{Run, M}
use retriever.Os.Heap
use retriever.Os.Files
use retriever.Socket
use retriever.Sha256.Block
use retriever.Sha256.Context
use retriever.Sha256.Hex
use retriever.Sha256.File
use retriever.Frame
use retriever.Frame.Encoding.{encode_header}
use retriever.Session
use retriever.Transfer.Path
use retriever.Transfer.Partial
use retriever.Transfer.Get
use retriever.Transfer.Put
use retriever.Main
use retriever.Main.{main}
use retriever.Os.Files.{resolve}
use retriever.Sha256.File.{sha256_file}
use retriever.Transfer.Get.{parse_meta}
use retriever.Main.{word_get}
use retriever.Os.Program.{ok, err, waits}
use retriever.Sha256.Hex.{sha256_hex, hex_loop}
use retriever.Transfer.Path.{suffix}

-- Bytes as one segment.
abbrev pub sends : Bytes → List Arrival
sends [] = []
sends (b ∷ bs) = segment b bs ∷ []

abbrev pub quiet : World
quiet = record {
  inbox = [];
  rooms = [];
  sent = [];
  addresses = λ host port. some (no_socket ∷ refused ∷ connected ∷ []);
  sockets = 0;
  files = [];
  handles = 0;
  stack = 1 ∷ 2 ∷ 3 ∷ [];
  heap = 0;
  faults = [];
  log = [];
}

-- The whole client, open for evaluation.
unfoldable pub run : List Bytes → M ℕ
unfolding memcpy Packing.put_u16 Packing.put_u64 Packing.get_u16 Packing.get_u64 Heap.malloc
    Heap.free Files.components Files.is_absolute Files.resolve Files.key_eq Files.lookup
    Files.insert Files.erase Files.stat Files.open_read Files.fread Files.seek Files.release
    Files.open_write Files.fwrite Files.close_written Files.remove Files.rename Files.name_in
    Files.entries Files.open_dir Socket.read_exact Socket.write_all Block.rotr Block.complement
    Block.ch Block.maj Block.bsig0 Block.bsig1 Block.ssig0 Block.ssig1 Block.block_word
    Block.expanded_word Block.load_words Block.expand_words Block.round Block.rounds
    Block.sha256_block Context.sha256_init Context.fill_block Context.top_up Context.whole_blocks
    Context.keep_rest Context.sha256_update Context.pad_zeros Context.length_bytes
    Context.state_bytes Context.sha256_final Hex.hex_loop Hex.sha256_hex File.hash_loop
    File.sha256_file Frame.fill_header Frame.write_frame Frame.check_header Frame.read_frame_header
    Frame.read_payload Frame.read_frame Frame.printed Frame.report_error Session.check_hello
    Session.do_hello Session.list_loop Session.show_list Session.do_list Session.do_quit
    Path.last_slash Path.basename_of Path.split_dir Path.split_path Path.format_partial
    Path.partial_name Partial.file_exists Partial.is_partial Partial.scan_entries Partial.hex_value
    Partial.scan_hex Partial.scan_token Partial.inspect_partial Partial.find_in_dir
    Partial.find_partial Get.fill_get_request Get.send_get Get.read_error Get.check_get_reply
    Get.parse_meta Get.download_piece Get.download_loop Get.settle_partial Get.publish Get.download
    Get.request_get Get.do_get Put.fill_put_request Put.send_put Put.local_size Put.read_offset
    Put.upload_piece Put.upload_loop Put.upload Put.check_verdict Put.check_offset Put.request_put
    Put.do_put Main.try_addresses Main.connect Main.close Main.parse_list Main.parse_get
    Main.parse_put Main.parse_command Main.perform Main.run_session Main.run_client Main.start
    Main.main
run = Main.main

abbrev pub abc : Bytes
abc = 97 ∷ 98 ∷ 99 ∷ []

-- The SHA-256 of "abc".
abbrev pub abc_hash : Bytes
abc_hash =
    0xba ∷ 0x78 ∷ 0x16 ∷ 0xbf ∷ 0x8f ∷ 0x01 ∷ 0xcf ∷ 0xea ∷ 0x41 ∷ 0x41 ∷ 0x40 ∷ 0xde ∷ 0x5d ∷ 0xae
    ∷ 0x22 ∷ 0x23 ∷ 0xb0 ∷ 0x03 ∷ 0x61 ∷ 0xa3 ∷ 0x96 ∷ 0x17 ∷ 0x7a ∷ 0x9c ∷ 0xb4 ∷ 0x10 ∷ 0xff
    ∷ 0x61 ∷ 0xf2 ∷ 0x00 ∷ 0x15 ∷ 0xad ∷ []

-- The reply to GET for a file with these contents and this hash.
unfoldable pub served : Bytes → Bytes → Bytes
unfolding big_endian encode_header
served hash contents =
    encode_header 0x80 (48 + length contents)
    ++ (big_endian 8 (length contents) ++ (big_endian 8 0 ++ (hash ++ contents)))

unfoldable pub accepted : Bytes
unfolding encode_header big_endian
accepted = encode_header 0x80 0

abbrev pub f : Bytes
f = b'f' ∷ []

abbrev pub command : Bytes → List Bytes → List Bytes
command word arguments = (b'r' ∷ []) ∷ (b'h' ∷ []) ∷ (b'9' ∷ []) ∷ word ∷ arguments

-- The exit status, the files, and what is still held.
abbrev summary : Run ℕ → Option (ℕ × (List (Key × Node) × (ℕ × (ℕ × ℕ))))
summary (ok code w) = some (code, (w.files, (w.heap, (w.handles, w.sockets))))
summary (err w) = none
summary (waits w) = none

downloaded :
    summary (
      run
        (command word_get (f ∷ []))
        (record quiet { inbox = sends (accepted ++ (served abc_hash abc ++ accepted)) }))
    ≡ some (0, ((((f ∷ []), regular abc) ∷ []), (0, (0, 0))))
unfolding run served accepted
downloaded = refl

-- A body that does not have the announced hash is not kept.
damaged :
    summary (
      run
        (command word_get (f ∷ []))
        (record quiet { inbox = sends (accepted ++ served abc_hash (97 ∷ 98 ∷ 100 ∷ [])) }))
    ≡ some (1, ([], (0, (0, 0))))
unfolding run served accepted
damaged = refl

-- A file that exists is not written over.
existing_kept :
    summary (
      run (command word_get (f ∷ [])) (record quiet {
        inbox = sends (accepted ++ (served abc_hash abc ++ accepted));
        files = ((f ∷ []), regular (1 ∷ [])) ∷ [];
      }))
    ≡ some (1, ((((f ∷ []), regular (1 ∷ [])) ∷ []), (0, (0, 0))))
unfolding run served accepted
existing_kept = refl

-- A connection that breaks leaves the partial file.
cut_off :
    summary (
      run (command word_get (f ∷ [])) (record quiet {
        inbox = sends (accepted ++ take 64 (served abc_hash abc)) ++ (Arrival.broken ∷ []);
      }))
    ≡ some (
      1,
      (
        (((b'.' ∷ b'f' ∷ b'.' ∷ (sha256_hex abc_hash 8 ++ suffix)) ∷ [], regular []) ∷ []),
        (0, (0, 0)),
      ),
    )
unfolding run served accepted sha256_hex hex_loop
cut_off = refl
