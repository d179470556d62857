-- ===== src/Tests/Wire.antt =====
-- Packing, the socket helpers and frames at concrete inputs.
use retriever.Base.{ℕ, ◌≡◌, refl, List, [], ◌∷◌, ◌++◌, replicate, arith, take, false, some, none}
use retriever.Packing.{put_u64, get_u64}
use retriever.Packing.Layout.{big_endian}
use retriever.Packing.RoundTrip.{get_u64-put_u64}
use retriever.Packing.Inverse.{put_u64-get_u64}
use retriever.Os.World.{World, Bytes, Arrival, segment, closed, takes, Room}
use retriever.Os.World.{oversized}
use retriever.Os.Program.{ok, err}
use retriever.Socket.{read_exact, write_all}
use retriever.Socket.Stream.{stream, ending, advance}
use retriever.Socket.Read.{stop, read_exact_full, read_exact_short}
use retriever.Socket.Write.{lasts, carried, spend, at, outcome, write_all-outcome}
use retriever.Frame.{write_frame, read_frame, fill_header, check_header}
use retriever.Frame.Encoding.{encode_header, fill_header-eq, check_header_sound}
use retriever.Frame.Writing.{
  frame_bytes, frame_lasts, frame_carried, frame_spend, write_frame-outcome,
}
use retriever.Frame.Reading.{past_header, after_frame, read_frame_oversized, read_frame-frame_bytes}

abbrev buf : List ℕ
buf = 9 ∷ 8 ∷ 7 ∷ 6 ∷ 5 ∷ 4 ∷ 3 ∷ 2 ∷ 1 ∷ 0 ∷ []

get_u64-put_u64_example : get_u64 (put_u64 buf 2 0xffff_ffff_ffff_fffe) 2 ≡ 0xffff_ffff_ffff_fffe
get_u64-put_u64_example =
    get_u64-put_u64 buf 2 0xffff_ffff_ffff_fffe (omega arith) (omega arith) (omega arith)

put_u64-get_u64_example : put_u64 buf 1 (get_u64 buf 1) ≡ buf
put_u64-get_u64_example = put_u64-get_u64 buf 1 (omega arith) (omega arith)

abbrev quiet : World
quiet = record {
  inbox = [];
  rooms = [];
  sent = [];
  addresses = λ host port. none;
  sockets = 1;
  files = [];
  handles = 0;
  stack = 1 ∷ 2 ∷ 3 ∷ [];
  heap = 0;
  faults = [];
  log = [];
}

-- Five bytes in two segments around a signal.
abbrev split : World
split = record quiet {
  inbox = segment 1 (2 ∷ []) ∷ Arrival.signal ∷ segment 3 (4 ∷ 5 ∷ []) ∷ closed ∷ [];
}

read_exact_full_example :
    read_exact 3 split
    ≡ ok (1 ∷ 2 ∷ 3 ∷ []) (record split { inbox = segment 4 (5 ∷ []) ∷ closed ∷ [] })
unfolding stream advance
read_exact_full_example = read_exact_full 3 split (omega arith)

read_exact_short_example :
    read_exact 6 split ≡ stop (ending split.inbox) (record split { inbox = advance 6 split.inbox })
unfolding stream
read_exact_short_example = read_exact_short 6 split (omega arith)

abbrev narrow : World
narrow = record quiet { rooms = takes 0 ∷ Room.signal ∷ takes 1 ∷ Room.broken ∷ [] }

write_all-outcome_example :
    write_all buf narrow ≡ outcome false (at narrow (Room.broken ∷ []) (9 ∷ 8 ∷ 7 ∷ []))
unfolding lasts spend carried
write_all-outcome_example = write_all-outcome buf narrow

fill_header-eq_example : fill_header (replicate 14 0xcc) 0x10 0 ≡ encode_header 0x10 0
fill_header-eq_example = fill_header-eq (replicate 14 0xcc) 0x10 0 refl

write_frame-outcome_example :
    write_frame 1 (7 ∷ []) narrow
    ≡ outcome (frame_lasts 1 narrow.rooms) (
        at narrow
          (frame_spend 1 narrow.rooms)
          ([] ++ take (frame_carried 1 narrow.rooms) (frame_bytes 1 (7 ∷ []))))
write_frame-outcome_example = write_frame-outcome 1 (7 ∷ []) narrow

-- The header of the protocol's worked example.
abbrev hello : Bytes
hello = 0x52 ∷ 0x54 ∷ 0x52 ∷ 0x56 ∷ 3 ∷ 0x10 ∷ 0 ∷ 0 ∷ 0 ∷ 0 ∷ 0 ∷ 0 ∷ 0 ∷ 0 ∷ []

hello_encoded : encode_header 0x10 0 ≡ hello
unfolding encode_header big_endian
hello_encoded = refl

hello_passes : check_header hello quiet ≡ ok (record { type = 0x10; payload_len = 0 }) quiet
unfolding check_header get_u64
hello_passes = refl

check_header_sound_example : (hello ≡ encode_header 0x10 0) × (quiet ≡ quiet)
check_header_sound_example =
    check_header_sound hello (record { type = 0x10; payload_len = 0 }) quiet quiet refl
      (omega arith) hello_passes

-- A frame of two bytes with one byte behind it, and a frame that claims too much.
abbrev with_frame : World
with_frame = record quiet {
  inbox =
      segment 0x52 (0x54 ∷ 0x52 ∷ [])
      ∷ segment 0x56 (3 ∷ 0x80 ∷ 0 ∷ 0 ∷ 0 ∷ 0 ∷ 0 ∷ 0 ∷ 0 ∷ 2 ∷ 70 ∷ 71 ∷ 72 ∷ [])
      ∷ [];
}

with_frame_stream : stream with_frame.inbox ≡ frame_bytes 0x80 (70 ∷ 71 ∷ []) ++ (72 ∷ [])
unfolding stream encode_header big_endian
with_frame_stream = refl

read_frame-frame_bytes_example :
    (read_frame with_frame
      ≡ ok
          (record { type = 0x80; payload = some (70 ∷ 71 ∷ []); payload_len = 2 })
          (after_frame (70 ∷ 71 ∷ []) with_frame))
    × (stream (after_frame (70 ∷ 71 ∷ []) with_frame).inbox ≡ 72 ∷ [])
read_frame-frame_bytes_example =
    read_frame-frame_bytes 0x80 (70 ∷ 71 ∷ []) (72 ∷ []) with_frame (omega arith) (omega arith) refl
      with_frame_stream

abbrev with_claim : World
with_claim = record quiet {
  inbox = segment 0x52 (0x54 ∷ 0x52 ∷ 0x56 ∷ 3 ∷ 0x80 ∷ 0 ∷ 0 ∷ 0 ∷ 0 ∷ 0 ∷ 1 ∷ 0 ∷ 1 ∷ []) ∷ [];
}

with_claim_stream : stream with_claim.inbox ≡ encode_header 0x80 65537 ++ []
unfolding stream encode_header big_endian
with_claim_stream = refl

read_frame_oversized_example :
    read_frame with_claim ≡ err (record (past_header with_claim) { log = oversized 65537 ∷ [] })
read_frame_oversized_example =
    read_frame_oversized 0x80 65537 [] with_claim (omega arith) (omega arith) with_claim_stream
      (omega arith)
