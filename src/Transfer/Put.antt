-- ===== src/Transfer/Put.antt =====
-- c/transfer.c, `rtrv_do_put`.
pub mod Sending
pub mod Reading
pub mod Upload
pub mod Integrity
use retriever.Base.{ℕ, zero, suc, ◌+◌, ◌-◌, not, ◌||◌, []}
use retriever.Base.{◌==◌, ltb, Option, some, none, if◌then◌else◌, length, take}
use retriever.Base.Memory.{memcpy}
use retriever.Packing.{put_u16, put_u64, get_u64}
use retriever.Os.World.{Bytes, regular, special, filename_too_long, unexpected_reply}
use retriever.Os.World.{not_found_locally, cannot_read, cannot_open, cannot_seek, changed_size}
use retriever.Os.World.{resume_past_end, resuming_upload, uploaded}
use retriever.Os.Program.{M, Run, ok, err, waits, pure, fail, ◌>>=◌, ◌>>◌, ◌on_error◌, say}
use retriever.Os.Program.{local_array}
use retriever.Os.Heap.{free}
use retriever.Os.Files.{Stream, stat, open_read, fread, seek, release}
use retriever.Socket.{write_all}
use retriever.Sha256.File.{buf_size, sha256_file}
use retriever.Frame.{Frame, write_frame, read_frame, report_error, t_put, t_ok, t_error}
use retriever.Transfer.Path.{max_name}

abbrev pub digest_size : ℕ
digest_size = 32

abbrev put_request_size : ℕ
put_request_size = 8 + digest_size + 2 + max_name

-- The request array, over what its memory held.
unfoldable pub fill_put_request : Bytes → ℕ → Bytes → Bytes → Bytes
fill_put_request memory file_size digest name =
    let fixed = memcpy (put_u64 memory 0 file_size) 8 digest in
    memcpy (put_u16 fixed (8 + digest_size) (length name)) (8 + digest_size + 2) name

unfoldable pub send_put : ℕ → Bytes → Bytes → M (Unit {0})
send_put file_size digest name w =
    write_frame t_put
      (take (8 + digest_size + 2 + length name)
        (fill_put_request (local_array put_request_size w) file_size digest name))
      w

-- The size of a regular file.
unfoldable pub local_size : Bytes → M ℕ
local_size path = do
  node ← stat path on_error say (not_found_locally path)
  elim node [
    | regular bytes ↦ pure (length bytes)
    | special size ↦ say (not_found_locally path) >> fail
  ]

abbrev pub payload_bytes : Option Bytes → Bytes
payload_bytes none = []
payload_bytes (some bytes) = bytes

-- The reply to the request: the offset to go on from.
unfoldable pub read_offset : Frame → M ℕ
read_offset f =
    if f.type == t_error
    then (report_error f.payload f.payload_len >> (free f.payload >> fail))
    else if not (f.type == t_ok) || ltb f.payload_len 8
    then (say (unexpected_reply f.type) >> (free f.payload >> fail))
    else (free f.payload >> pure (get_u64 (payload_bytes f.payload) 0))

-- One round of the upload: a piece off the file and onto the connection; the stream after it.
unfoldable pub upload_piece : Bytes → ℕ → Stream → M Stream
upload_piece local_path want s = do
  r ← fread want s
  if not (length r.0 == want)
      then (release >> (say (changed_size local_path) >> fail))
      else ((write_all r.0 on_error release) >> pure r.1)

abbrev pub piece_size : ℕ → ℕ
piece_size remaining = if ltb remaining buf_size then remaining else buf_size

-- `while (remaining > 0)`: the fuel is what remains at the start.
unfoldable pub upload_loop : ℕ → ℕ → Bytes → Stream → M (Unit {0})
upload_loop zero remaining local_path s w = ok tt w
upload_loop (suc fuel) remaining local_path s w =
    let more = elim (upload_piece local_path (piece_size remaining) s w) as (λ _. Run (Unit {0})) [
      | ok s' w' ↦ upload_loop fuel (remaining - piece_size remaining) local_path s' w'
      | err w' ↦ err w'
      | waits w' ↦ waits w'
    ] in
    if ltb 0 remaining then more else ok tt w

-- Only the bytes that the server is missing.
unfoldable pub upload : Bytes → ℕ → ℕ → M (Unit {0})
upload local_path file_size offset = do
  s ← open_read local_path on_error say (cannot_open local_path)
  s' ← seek offset s on_error (release >> say (cannot_seek local_path))
  upload_loop (file_size - offset) (file_size - offset) local_path s'
  release

-- The server's verdict on what it stored.
unfoldable pub check_verdict : Frame → M (Unit {0})
check_verdict f =
    if f.type == t_error
    then (report_error f.payload f.payload_len >> (free f.payload >> fail))
    else (free f.payload
        >> (if not (f.type == t_ok) then (say (unexpected_reply f.type) >> fail) else pure tt))

-- What is printed before the upload.
unfoldable pub check_offset : ℕ → ℕ → M (Unit {0})
check_offset file_size offset =
    if ltb file_size offset
    then (say resume_past_end >> fail)
    else if ltb 0 offset
    then say (resuming_upload offset)
    else pure tt

unfoldable pub request_put : Bytes → Bytes → ℕ → Bytes → M (Unit {0})
request_put local_path remote_name file_size digest = do
  send_put file_size digest remote_name
  f ← read_frame
  offset ← read_offset f
  check_offset file_size offset
  upload local_path file_size offset
  verdict ← read_frame
  check_verdict verdict
  say (uploaded local_path file_size remote_name)

unfoldable pub do_put : Bytes → Bytes → M (Unit {0})
do_put local_path remote_name = do
  file_size ← local_size local_path
  digest ← sha256_file local_path on_error say (cannot_read local_path)
  if ltb max_name (length remote_name)
      then (say filename_too_long >> fail)
      else request_put local_path remote_name file_size digest
