-- ===== src/Frame/Writing.antt =====
-- `write_frame` on every connection.
use retriever.Base.{ℕ, suc, ◌+◌, ◌≡◌, sym, ap, ◌∙◌, arith, List, [], ◌∷◌, ◌++◌}
use retriever.Base.{append_assoc, append-nil, Bool, true, false, ltb, if◌then◌else◌, inl, inr}
use retriever.Base.{Bool-cases, length, take, take-append_ge, take-append_le}
use retriever.Os.World.{World, Bytes, Room}
use retriever.Os.Program.{pure, ◌>>=◌, local_array}
use retriever.Socket.{write_all}
use retriever.Socket.Write.{lasts, carried, spend, at, outcome, carried-lt}
use retriever.Socket.Write.{write_all-outcome, write_all_ok, write_all_err}
use retriever.Frame.{header_size, fill_header, write_frame}
use retriever.Frame.Encoding.{encode_header, length-encode_header, fill_header-eq}
use retriever.Frame.Encoding.{length-local_array}

-- A frame on the wire.
abbrev pub frame_bytes : ℕ → Bytes → Bytes
frame_bytes type payload = encode_header type (length payload) ++ payload

-- The connection over the two writes of a frame: the header, then `n` bytes of payload.
abbrev pub frame_lasts : ℕ → List Room → Bool
frame_lasts n rooms = if lasts header_size rooms then lasts n (spend header_size rooms) else false

abbrev pub frame_carried : ℕ → List Room → ℕ
frame_carried n rooms =
    if lasts header_size rooms
    then header_size + carried n (spend header_size rooms)
    else carried header_size rooms

abbrev pub frame_spend : ℕ → List Room → List Room
frame_spend n rooms =
    if lasts header_size rooms then spend n (spend header_size rooms) else spend header_size rooms

-- An empty payload is not written, which is what writing it would do.
write_payload :
    (p : Bytes) (w : World)
    → (if ltb 0 (length p) then write_all p else pure tt) w
      ≡ outcome
          (lasts (length p) w.rooms)
          (at w (spend (length p) w.rooms) (w.sent ++ take (carried (length p) w.rooms) p))
write_payload [] w = unfold lasts spend carried in rw append-nil
write_payload (b ∷ p) w =
    let some : ltb 0 (suc (length p)) ≡ true = ground arith in rw some (write_all-outcome (b ∷ p) w)

module _ (type : ℕ) (payload : Bytes) (w : World) where
  abbrev header : Bytes
  header = encode_header type (length payload)

  write_header :
      write_all (fill_header (local_array header_size w) type (length payload)) w
      ≡ write_all header w
  write_header = rw (
      fill_header-eq (local_array header_size w) type (length payload)
        (length-local_array header_size w))

  write_frame_unsent :
      lasts header_size w.rooms ≡ false
      → write_frame type payload w
        ≡ outcome false
            (at w (spend header_size w.rooms) (w.sent ++ take (carried header_size w.rooms) header))
  unfolding write_frame
  write_frame_unsent h = rw (
    write_header
        ∙ write_all_err header header_size w (length-encode_header type (length payload)) h,
    ◌>>=◌,
  )

  write_frame-header :
      lasts header_size w.rooms ≡ true
      → write_frame type payload w
        ≡ (if ltb 0 (length payload) then write_all payload else pure tt)
            (at w (spend header_size w.rooms) (w.sent ++ header))
  unfolding write_frame
  write_frame-header h = rw (
    write_header ∙ write_all_ok header header_size w (length-encode_header type (length payload)) h,
    ◌>>=◌,
  )

-- `write_frame` sends the header of the protocol and then the payload. Where the connection breaks
-- it fails, with a prefix of those bytes sent.
pub write_frame-outcome :
    (type : ℕ) (payload : Bytes) (w : World)
    → let n = length payload in
      write_frame type payload w
      ≡ outcome (frame_lasts n w.rooms) (
          at w
            (frame_spend n w.rooms)
            (w.sent ++ take (frame_carried n w.rooms) (frame_bytes type payload)))
write_frame-outcome type payload w =
    let n : ℕ = length payload in
    let header : Bytes = encode_header type n in
    let rooms : List Room = spend header_size w.rooms in
    elim (Bool-cases (lasts header_size w.rooms)) [
      | inl h ↦
          rw (write_frame-header type payload w h, h, write_payload)
            (ap (λ (r : Bytes). outcome (lasts n rooms) (at w (spend n rooms) r))
              (append_assoc w.sent header (take (carried n rooms) payload)
                ∙ ap (λ (r : Bytes). w.sent ++ r)
                    (sym (
                      take-append_ge (header_size + carried n rooms) (carried n rooms) header
                        payload (omega (arith, length-encode_header type n))))))
      | inr h ↦
          rw (write_frame_unsent type payload w h, h)
            (ap (λ (r : Bytes). outcome false (at w rooms (w.sent ++ r)))
              (sym (
                take-append_le (carried header_size w.rooms) header payload
                  (omega (arith, length-encode_header type n, carried-lt header_size w.rooms h)))))
    ]
