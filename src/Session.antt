-- ===== src/Session.antt =====
-- c/main.c, the exchanges HELLO, LIST and QUIT.
pub mod Tracked
pub mod Listing
pub mod Names
pub mod Greeting
use retriever.Base.{ℕ, zero, suc, ◌+◌, ◌-◌, true, false, not, [], ◌==◌, Option, some, none}
use retriever.Base.{if◌then◌else◌, ltb, ◌||◌, length, drop, get_or}
use retriever.Os.World.{Bytes, unexpected_reply, listed}
use retriever.Os.Program.{M, pure, fail, ◌>>=◌, ◌>>◌, attempt, say}
use retriever.Os.Heap.{free}
use retriever.Frame.{Frame, write_frame, read_frame, report_error, printed}
use retriever.Frame.{t_hello, t_list, t_quit, t_ok, t_error}

-- The reply to HELLO: an ERROR is reported, and only OK will do.
unfoldable pub check_hello : Frame → M (Unit {0})
check_hello f =
    if f.type == t_error
    then (report_error f.payload f.payload_len >> (free f.payload >> fail))
    else (free f.payload
        >> (if not (f.type == t_ok) then (say (unexpected_reply f.type) >> fail) else pure tt))

unfoldable pub do_hello : M (Unit {0})
do_hello = do write_frame t_hello []; f ← read_frame; check_hello f

-- The loop over the payload at index `i` with `left` rounds to go; the last round is at the end.
unfoldable pub list_loop : ℕ → ℕ → ℕ → Bytes → M (Unit {0})
list_loop zero i start payload w = pure tt w
list_loop (suc left) i start payload w = elim ((i == length payload) || (get_or payload i 0 == 0)) [
  | true ↦
      ((if ltb start i then say (listed (printed (i - start) (drop start payload))) else pure tt)
          >> list_loop left (i + 1) (i + 1) payload)
        w
  | false ↦ list_loop left (i + 1) start payload w
]

abbrev pub payload_bytes : Option Bytes → Bytes
payload_bytes none = []
payload_bytes (some bytes) = bytes

unfoldable pub show_list : Frame → M (Unit {0})
show_list f =
    if f.type == t_error
    then (report_error f.payload f.payload_len >> (free f.payload >> fail))
    else if not (f.type == t_ok)
    then (say (unexpected_reply f.type) >> (free f.payload >> fail))
    else (list_loop (length (payload_bytes f.payload) + 1) 0 0 (payload_bytes f.payload)
        >> free f.payload)

unfoldable pub do_list : M (Unit {0})
do_list = do write_frame t_list []; f ← read_frame; show_list f

-- The acknowledgement is read and let go; no failure is looked at.
unfoldable pub do_quit : M (Unit {0})
do_quit = attempt (write_frame t_quit []) >>= λ wrote. elim wrote [
  | none ↦ pure tt
  | some _ ↦ attempt read_frame >>= λ f. elim f [ none ↦ pure tt | some frame ↦ free frame.payload ]
]
