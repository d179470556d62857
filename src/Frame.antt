-- ===== src/Frame.antt =====
-- c/frame.c, the v3 frames.
pub mod Encoding
pub mod Writing
pub mod Reading
pub mod Tracked
use retriever.Base.{ℕ, zero, suc, ◌+◌, not, List, [], ◌∷◌, Option, some, none, ltb, ◌==◌}
use retriever.Base.{if◌then◌else◌, length, take, drop, set, get_or, bytes_eq}
use retriever.Base.Memory.{memcpy}
use retriever.Packing.{put_u64, get_u16, get_u64}
use retriever.Os.World.{World, Bytes, bad_magic, bad_version, oversized, out_of_memory}
use retriever.Os.World.{malformed_error, wrong_message_length, server_error}
use retriever.Os.Program.{M, pure, fail, ◌>>=◌, ◌>>◌, ◌on_error◌, say, local_array}
use retriever.Os.Heap.{malloc, free}
use retriever.Socket.{read_exact, write_all}

-- "RTRV"
abbrev pub magic : Bytes
magic = 0x52 ∷ 0x54 ∷ 0x52 ∷ 0x56 ∷ []

abbrev pub version : ℕ
version = 3

abbrev pub header_size : ℕ
header_size = 14

abbrev pub payload_cap : ℕ
payload_cap = 65536

-- `RTRV_T_…`
abbrev pub t_list : ℕ
t_list = 0x00

abbrev pub t_get : ℕ
t_get = 0x01

abbrev pub t_put : ℕ
t_put = 0x02

abbrev pub t_hello : ℕ
t_hello = 0x10

abbrev pub t_quit : ℕ
t_quit = 0x11

abbrev pub t_ok : ℕ
t_ok = 0x80

abbrev pub t_error : ℕ
t_error = 0x81

-- The header array, over what its memory held.
unfoldable pub fill_header : Bytes → ℕ → ℕ → Bytes
fill_header memory type payload_len =
    put_u64 (set (set (memcpy memory 0 magic) 4 version) 5 type) 6 payload_len

unfoldable pub write_frame : ℕ → Bytes → M (Unit {0})
write_frame type payload w =
    (write_all (fill_header (local_array header_size w) type (length payload))
        >> (if ltb 0 (length payload) then write_all payload else pure tt))
      w

pub record Header : Type 0 where
  pub type : ℕ
  pub payload_len : ℕ

-- The checks on the 14 bytes of a header.
unfoldable pub check_header : Bytes → M Header
check_header header =
    if not (bytes_eq (take 4 header) magic)
    then (say bad_magic >> fail)
    else if not (get_or header 4 0 == version)
    then (say (bad_version (get_or header 4 0)) >> fail)
    else pure (record { type = get_or header 5 0; payload_len = get_u64 header 6 })

unfoldable pub read_frame_header : M Header
read_frame_header = do header ← read_exact header_size; check_header header

-- A frame with its payload: NULL, or a block that the caller must free.
pub record Frame : Type 0 where
  pub type : ℕ
  pub payload : Option Bytes
  pub payload_len : ℕ

-- The payload of `n` bytes, into a new block.
unfoldable pub read_payload : ℕ → M Bytes
read_payload n = do malloc on_error say out_of_memory; read_exact n on_error free (some [])

unfoldable pub read_frame : M Frame
read_frame = do
  h ← read_frame_header
  if ltb payload_cap h.payload_len
      then (say (oversized h.payload_len) >> fail)
      else if h.payload_len == 0
      then pure (record { type = h.type; payload = none; payload_len = 0 })
      else (read_payload h.payload_len >>= λ bytes.
          pure (record { type = h.type; payload = some bytes; payload_len = h.payload_len }))

-- What "%.*s" prints of `n` bytes: it stops at a zero byte.
unfoldable pub printed : ℕ → Bytes → Bytes
printed zero bytes = []
printed (suc n) [] = []
printed (suc n) (zero ∷ bytes) = []
printed (suc n) (suc b ∷ bytes) = suc b ∷ printed n bytes

unfoldable pub report_error : Option Bytes → ℕ → M (Unit {0})
report_error none payload_len = say malformed_error
report_error (some payload) payload_len =
    if ltb payload_len 3
    then say malformed_error
    else if ltb payload_len (get_u16 payload 1 + 3)
    then say wrong_message_length
    else say (server_error (printed (get_u16 payload 1) (drop 3 payload)) (get_or payload 0 0))
