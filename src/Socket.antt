-- ===== src/Socket.antt =====
-- c/frame.c, the socket helpers: exact reads and complete writes over `recv` and `send`.
pub mod Stream
pub mod Read
pub mod Write
use retriever.Base.{ℕ, zero, suc, ◌+◌, ◌-◌, Bool, List, [], ◌∷◌, ◌++◌, min, leb, if◌then◌else◌}
use retriever.Base.{length, take, drop}
use retriever.Os.World.{World, Bytes, Arrival, Room, segment, closed, takes}
use retriever.Os.World.{read_failed, closed_early, write_failed}
use retriever.Os.Program.{Run, M, ok, err, waits, fail, ◌>>◌, say}

-- What one `recv` returns: bytes, 0, or -1 with `errno`. With nothing there it waits.
pub data Recv : Type 0 where
  got : Bytes → World → Recv
  eof eintr failed stalled : World → Recv

-- The bytes of a segment that the caller did not ask for stay.
abbrev pub put_back : Bytes → List Arrival → List Arrival
put_back [] rest = rest
put_back (b ∷ bs) rest = segment b bs ∷ rest

recv_from : List Arrival → ℕ → World → Recv
recv_from [] count w = stalled w
recv_from (segment b bs ∷ rest) count w =
    got (take count (b ∷ bs)) (record w { inbox = put_back (drop count (b ∷ bs)) rest })
recv_from (Arrival.signal ∷ rest) count w = eintr (record w { inbox = rest })
recv_from (Arrival.broken ∷ rest) count w = failed w
recv_from (closed ∷ rest) count w = eof w

recv : ℕ → World → Recv
recv count w = recv_from w.inbox count w

-- `while (got < n)`; `buf` is the part of the buffer that is filled.
read_loop : ℕ → ℕ → Bytes → M Bytes
read_loop zero n buf w = waits w
read_loop (suc fuel) n buf w =
    let read = elim (recv (n - length buf) w) as (λ _. Run Bytes) [
      | got bytes w' ↦ read_loop fuel n (buf ++ bytes) w'
      | eintr w' ↦ read_loop fuel n buf w'
      | failed w' ↦ (say read_failed >> fail) w'
      | eof w' ↦ (say closed_early >> fail) w'
      | stalled w' ↦ waits w'
    ] in
    if leb n (length buf) then ok buf w else read

-- A `recv` that does not end the loop takes an arrival away, so the fuel is enough.
unfoldable pub read_exact : ℕ → M Bytes
unfolding read_loop recv recv_from
read_exact n w = read_loop (length w.inbox + 2) n [] w

-- What one `send` returns: a count, or -1 with `errno`. It always comes back, also where the real call
-- would block for ever, and a broken pipe is an error, as in a process that ignores SIGPIPE.
pub data Send : Type 0 where
  accepted : ℕ → World → Send
  eintr failed : World → Send

abbrev pub accept : ℕ → Bytes → World → Send
accept count bytes w = accepted count (record w { sent = w.sent ++ take count bytes })

send_into : List Room → Bytes → World → Send
send_into [] bytes w = accept (length bytes) bytes w
send_into (takes k ∷ rest) bytes w =
    accept (min (suc k) (length bytes)) bytes (record w { rooms = rest })
send_into (Room.signal ∷ rest) bytes w = eintr (record w { rooms = rest })
send_into (Room.broken ∷ rest) bytes w = failed w

send : Bytes → World → Send
send bytes w = send_into w.rooms bytes w

-- `while (sent < n)`
write_loop : ℕ → Bytes → ℕ → M (Unit {0})
write_loop zero p done w = waits w
write_loop (suc fuel) p done w =
    let write = elim (send (drop done p) w) as (λ _. Run (Unit {0})) [
      | accepted k w' ↦ write_loop fuel p (done + k) w'
      | eintr w' ↦ write_loop fuel p done w'
      | failed w' ↦ (say write_failed >> fail) w'
    ] in
    if leb (length p) done then ok tt w else write

unfoldable pub write_all : Bytes → M (Unit {0})
unfolding write_loop send send_into
write_all p w = write_loop (length w.rooms + 2) p 0 w
