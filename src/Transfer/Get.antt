-- ===== src/Transfer/Get.antt =====
-- c/transfer.c, `rtrv_do_get`.
pub mod Incoming
pub mod Appending
pub mod Opening
pub mod Saving
pub mod Searching
pub mod Integrity
pub mod Beside
pub mod Searched
pub mod Untouched
pub mod Apart
pub mod Replied
pub mod Completing
pub mod Success
pub mod Offering
pub mod Delivery
pub mod Interrupted
use retriever.Base.{ℕ, zero, suc, ◌+◌, ◌-◌, ◌%◌, ◌^◌, not, []}
use retriever.Base.{◌==◌, ltb, Option, some, none, if◌then◌else◌, length, take, drop, bytes_eq}
use retriever.Base.{replicate}
use retriever.Base.Memory.{memcpy}
use retriever.Packing.{put_u16, put_u64, get_u64}
use retriever.Os.World.{Bytes, already_exists, filename_too_long, oversized_error}
use retriever.Os.World.{out_of_memory, unexpected_reply, resuming, cannot_write, interrupted}
use retriever.Os.World.{cannot_write_to, cannot_flush, cannot_verify, hash_mismatch, cannot_rename}
use retriever.Os.World.{downloaded}
use retriever.Os.Program.{M, Run, ok, err, waits, pure, fail, ◌>>=◌, ◌>>◌, ◌on_error◌, attempt, say}
use retriever.Os.Program.{local_array}
use retriever.Os.Heap.{malloc, free}
use retriever.Os.Files.{open_write, fwrite, close_written, release, remove, rename}
use retriever.Socket.{read_exact}
use retriever.Sha256.File.{buf_size, sha256_file}
use retriever.Frame.{Header, write_frame, read_frame_header, report_error, payload_cap}
use retriever.Frame.{t_get, t_ok, t_error}
use retriever.Transfer.Path.{max_name, path_max, token_size, partial_name}
use retriever.Transfer.Partial.{Found, file_exists, find_partial}

-- What is asked for: the offset and the token of the partial file, or zeros.
pub record Resume : Type 0 where
  pub existing : Option Bytes
  pub offset : ℕ
  pub token : Bytes

abbrev pub resume_of : Option (Option Found) → Resume
resume_of none = record { existing = none; offset = 0; token = replicate token_size 0 }
resume_of (some none) = record { existing = none; offset = 0; token = replicate token_size 0 }
resume_of (some (some f)) = record { existing = some f.path; offset = f.size; token = f.token }

abbrev get_request_size : ℕ
get_request_size = 8 + token_size + 2 + max_name

-- The request array, over what its memory held.
unfoldable pub fill_get_request : Bytes → ℕ → Bytes → Bytes → Bytes
fill_get_request memory offset token name =
    let fixed = memcpy (put_u64 memory 0 offset) 8 token in
    memcpy (put_u16 fixed (8 + token_size) (length name)) (8 + token_size + 2) name

unfoldable pub send_get : Resume → Bytes → M (Unit {0})
send_get resume name w =
    write_frame t_get
      (take (8 + token_size + 2 + length name)
        (fill_get_request (local_array get_request_size w) resume.offset resume.token name))
      w

-- The body of an ERROR reply: read where it can be, and reported.
unfoldable pub read_error : ℕ → M (Unit {0})
read_error payload_len =
    (malloc on_error say out_of_memory)
    >> (attempt (read_exact payload_len) >>= λ payload.
        (elim payload [ none ↦ pure tt | some bytes ↦ report_error (some bytes) payload_len ])
        >> (free (some []) >> fail))

-- The reply's header: only an OK frame goes on.
unfoldable pub check_get_reply : Header → M (Unit {0})
check_get_reply h =
    if h.type == t_error
    then (if ltb payload_cap h.payload_len
        then (say oversized_error >> fail)
        else read_error h.payload_len)
    else if not (h.type == t_ok)
    then (say (unexpected_reply h.type) >> fail)
    else pure tt

-- `total_size`, `start_offset` and the hash, from the 48 bytes before the body.
pub record Meta : Type 0 where
  pub total_size : ℕ
  pub start : ℕ
  pub digest : Bytes

unfoldable pub parse_meta : Bytes → Meta
parse_meta meta = record {
  total_size = get_u64 meta 0;
  start = get_u64 meta 8;
  digest = drop 16 meta;
}

-- One round of the download: a piece off the connection and onto the file.
unfoldable pub download_piece : Bytes → ℕ → M (Unit {0})
download_piece partial want = do
  bytes ← read_exact want on_error (release >> say interrupted)
  fwrite partial bytes on_error (release >> say (cannot_write_to partial))

abbrev pub piece_size : ℕ → ℕ
piece_size remaining = if ltb remaining buf_size then remaining else buf_size

-- `while (remaining > 0)`: the fuel is what remains at the start.
unfoldable pub download_loop : ℕ → ℕ → Bytes → M (Unit {0})
download_loop zero remaining partial w = ok tt w
download_loop (suc fuel) remaining partial w =
    let more = elim (download_piece partial (piece_size remaining) w) as (λ _. Run (Unit {0})) [
      | ok _ w' ↦ download_loop fuel (remaining - piece_size remaining) partial w'
      | err w' ↦ err w'
      | waits w' ↦ waits w'
    ] in
    if ltb 0 remaining then more else ok tt w

-- `total_size - start`, on a `uint64_t`.
abbrev pub body_size : Meta → ℕ
body_size m = (m.total_size + 2 ^ 64 - m.start) % 2 ^ 64

abbrev pub forget : Option Bytes → M (Unit {0})
forget none = pure tt
forget (some existing) = remove existing

-- The message, or the removal of a partial file that the server does not go on from.
unfoldable pub settle_partial : Bytes → Resume → ℕ → M (Unit {0})
settle_partial remote_name resume start =
    if ltb 0 start then say (resuming remote_name start) else forget resume.existing

-- The comparison of the hashes, and the renaming.
unfoldable pub publish : Bytes → Bytes → Bytes → Bytes → M (Unit {0})
publish partial dest actual digest =
    if bytes_eq actual digest
    then (rename partial dest on_error say (cannot_rename partial dest))
    else (remove partial >> (say hash_mismatch >> fail))

-- From the metadata on, once the name of the partial file is made.
unfoldable pub download : Bytes → Bytes → Resume → Meta → Bytes → M (Unit {0})
download remote_name dest resume m partial = do
  settle_partial remote_name resume m.start
  open_write partial (ltb 0 m.start) on_error say (cannot_write partial)
  download_loop (body_size m) (body_size m) partial
  close_written on_error say (cannot_flush partial)
  actual ← sha256_file partial on_error say (cannot_verify partial)
  publish partial dest actual m.digest
  say (downloaded remote_name m.total_size dest)

abbrev pub get_meta_size : ℕ
get_meta_size = 48

-- From the request on.
unfoldable pub request_get : Bytes → Bytes → Resume → M (Unit {0})
request_get remote_name dest resume = do
  send_get resume remote_name
  h ← read_frame_header
  check_get_reply h
  meta ← read_exact get_meta_size
  partial ← partial_name dest (parse_meta meta).digest path_max
  download remote_name dest resume (parse_meta meta) partial

unfoldable pub do_get : Bytes → Bytes → M (Unit {0})
do_get remote_name dest = do
  exists ← file_exists dest
  if exists
      then (say (already_exists dest) >> fail)
      else (attempt (find_partial dest path_max) >>= λ found.
          if ltb max_name (length remote_name)
          then (say filename_too_long >> fail)
          else request_get remote_name dest (resume_of found))
