-- ===== src/Frame/Reading.antt =====
-- `read_frame_header` and `read_frame` against the bytes of the protocol.
use retriever.Base.{
  ℕ, ◌-◌, ◌^◌, ◌≤◌, ◌<◌, ◌≡◌, refl, ap, ◌∙◌, arith, [], ◌∷◌, ◌++◌, append_assoc, append-nil,
}
use retriever.Base.{Option, some, none, true, false, ltb, ◌==◌, lt→ltb}
use retriever.Base.{length, length-append, take, drop, take-append, drop-append}
use retriever.Os.World.{World, Bytes, oversized, out_of_memory}
use retriever.Os.Program.{Run, ok, err, waits, ◌>>=◌, ◌on_error◌, draw, drawn}
use retriever.Os.Heap.{free, allocated, malloc_ok, malloc_err}
use retriever.Socket.Stream.{stream, ending, advance, stream-advance}
use retriever.Socket.Read.{stop, read_exact_full, read_exact_short}
use retriever.Frame.{header_size, payload_cap, read_frame_header}
use retriever.Frame.{read_payload, read_frame}
use retriever.Frame.Writing.{frame_bytes}
use retriever.Frame.Encoding.{encode_header, length-encode_header, check_header-encode}

-- The world after the header.
abbrev pub past_header : World → World
past_header w = record w { inbox = advance header_size w.inbox }

module _ (type n : ℕ) (rest : Bytes) (w : World) (type_fits : type < 256) (n_fits : n < 2 ^ 64)
    (comes : stream w.inbox ≡ encode_header type n ++ rest) where
  header_at_hand : header_size ≤ length (stream w.inbox)
  header_at_hand =
      rw comes
        (omega (arith, length-append (encode_header type n) rest, length-encode_header type n))

  -- A header of the protocol is read as its type and length.
  pub read_frame_header_ok :
      read_frame_header w ≡ ok (record { type = type; payload_len = n }) (past_header w)
  unfolding read_frame_header
  read_frame_header_ok =
      rw
        (
          read_exact_full header_size w header_at_hand
              ∙ ap (λ (b : Bytes). ok b (past_header w))
                  (ap (λ (b : Bytes). take header_size b) comes
                    ∙ take-append header_size (encode_header type n) rest
                        (length-encode_header type n)),
          ◌>>=◌,
        )
        (check_header-encode type n (past_header w) type_fits n_fits)

  pub stream-past_header : stream (past_header w).inbox ≡ rest
  stream-past_header =
      stream-advance header_size w.inbox header_at_hand
      ∙ ap (λ (b : Bytes). drop header_size b) comes
      ∙ drop-append header_size (encode_header type n) rest (length-encode_header type n)

  -- Where a header of the protocol announces a payload over the cap, `read_frame` refuses it,
  -- having read the header and none of the payload.
  pub read_frame_oversized :
      payload_cap < n
      → read_frame w ≡ err (record (past_header w) { log = w.log ++ (oversized n ∷ []) })
  unfolding read_frame
  read_frame_oversized big = rw (read_frame_header_ok, ◌>>=◌) (rw (lt→ltb payload_cap n big))

  read_frame_rest :
      0 < n
      → n ≤ payload_cap
      → read_frame w
        ≡ (read_payload n >>= λ bytes.
              ok (record { type = type; payload = some bytes; payload_len = n }))
            (past_header w)
  unfolding read_frame
  read_frame_rest positive fits =
      let not_big : ltb payload_cap n ≡ false = ground arith in
      let not_empty : (n == 0) ≡ false = ground arith in
      rw (read_frame_header_ok, ◌>>=◌) (rw (not_big, not_empty))

  read_frame_empty :
      n ≡ 0
      → read_frame w ≡ ok (record { type = type; payload = none; payload_len = 0 }) (past_header w)
  unfolding read_frame
  read_frame_empty e = rw (read_frame_header_ok, ◌>>=◌) (rw e)

-- What is left of a failed read once its block is freed.
abbrev pub freed : Run Bytes → Run Bytes
freed (ok bytes w) = ok bytes w
freed (err w) = err (record w { heap = w.heap - 1 })
freed (waits w) = waits w

module _ (n : ℕ) (w : World) where
  read_payload_ok :
      draw w.faults ≡ false
      → n ≤ length (stream w.inbox)
      → read_payload n w
        ≡ ok (take n (stream w.inbox)) (record (allocated w) { inbox = advance n w.inbox })
  unfolding read_payload
  read_payload_ok given enough =
      rw (malloc_ok w given, ◌>>=◌, ◌on_error◌)
        (rw (read_exact_full n (allocated w) enough, ◌on_error◌))

  read_payload_short :
      draw w.faults ≡ false
      → length (stream w.inbox) < n
      → read_payload n w
        ≡ freed (stop (ending w.inbox) (record (allocated w) { inbox = advance n w.inbox }))
  unfolding read_payload free
  read_payload_short given missing =
      ground (arith, malloc_ok w given, read_exact_short n (allocated w) missing)

  read_payload_no_memory :
      draw w.faults ≡ true
      → read_payload n w
        ≡ err (record w { faults = drawn w.faults; log = w.log ++ (out_of_memory ∷ []) })
  unfolding read_payload
  read_payload_no_memory refused = ground (arith, malloc_err w refused)

-- A payload in memory: NULL for none.
abbrev pub block : Bytes → Option Bytes
block [] = none
block (b ∷ bs) = some (b ∷ bs)

-- The world after a whole frame is read.
abbrev pub after_frame : Bytes → World → World
after_frame [] w = past_header w
after_frame (b ∷ bs) w = record (allocated (past_header w)) {
  inbox = advance (length (b ∷ bs)) (past_header w).inbox;
}

-- Where the `malloc` for the payload does not fail, `read_frame` reads what `write_frame` writes for any
-- payload up to the cap, and leaves the bytes behind the frame: with a payload the result is one new block, without one it is NULL.
pub read_frame-frame_bytes :
    (type : ℕ) (payload rest : Bytes) (w : World)
    → type < 256
    → length payload ≤ payload_cap
    → draw w.faults ≡ false
    → stream w.inbox ≡ frame_bytes type payload ++ rest
    → (read_frame w
        ≡ ok
            (record { type = type; payload = block payload; payload_len = length payload })
            (after_frame payload w))
      × (stream (after_frame payload w).inbox ≡ rest)
read_frame-frame_bytes type [] rest w ht fits given comes =
    let comes' : stream w.inbox ≡ encode_header type 0 ++ rest = rw append-nil at comes in
    (
      read_frame_empty type 0 rest w ht (omega arith) comes' refl,
      stream-past_header type 0 rest w ht (omega arith) comes',
    )
read_frame-frame_bytes type (b ∷ bs) rest w ht fits given comes =
    let p : Bytes = b ∷ bs in
    let n : ℕ = length p in
    let comes' : stream w.inbox ≡ encode_header type n ++ (p ++ rest) =
      comes ∙ append_assoc (encode_header type n) p rest in
    let body : stream (past_header w).inbox ≡ p ++ rest =
      stream-past_header type n (p ++ rest) w ht (omega arith) comes' in
    let enough : n ≤ length (stream (past_header w).inbox) =
      rw body (omega (arith, length-append p rest)) in
    (
      read_frame_rest type n (p ++ rest) w ht (omega arith) comes' (omega arith) fits
          ∙ rw (read_payload_ok n (past_header w) given enough, ◌>>=◌)
              (ap
                (λ (q : Bytes).
                  ok (record { type = type; payload = some q; payload_len = n }) (after_frame p w))
                (ap (λ (q : Bytes). take n q) body ∙ take-append n p rest refl)),
      stream-advance n (past_header w).inbox enough
          ∙ ap (λ (q : Bytes). drop n q) body
          ∙ drop-append n p rest refl,
    )
