-- ===== src/Session/Greeting.antt =====
-- `do_hello` against a server that answers with a frame.
use retriever.Base.{ℕ, ◌<◌, ◌≤◌, ◌≡◌, ap, ◌∙◌, arith, true, false, not, ◌==◌, ltb, [], ◌++◌}
use retriever.Base.{Option, some, none, length, take, ◌+◌}
use retriever.Packing.{get_u16}
use retriever.Os.World.{World, Bytes}
use retriever.Os.Program.{ok, ◌>>=◌, ◌>>◌, draw}
use retriever.Os.Heap.{free}
use retriever.Os.Triples.{Ends, Contract, Contract-then, Contract-if}
use retriever.Os.Calm.{Never}
use retriever.Socket.Stream.{stream}
use retriever.Socket.Write.{outcome, at}
use retriever.Frame.{t_hello, t_ok, t_error, payload_cap, write_frame, report_error}
use retriever.Frame.Writing.{
  frame_bytes, frame_lasts, frame_carried, frame_spend, write_frame-outcome,
}
use retriever.Frame.Reading.{block, after_frame, read_frame-frame_bytes}
use retriever.Session.{check_hello, do_hello}

-- The bytes that are still to come.
abbrev Left : Bytes → World → Type 0
Left rest w = stream w.inbox ≡ rest

module _ {rest : Bytes} {E : World → Type 0} where
  free-Left : (p : Option Bytes) → Contract Never (Left rest) (free p) (λ _. Left rest) E
  unfolding free
  free-Left none = record { runs = λ w u. u }
  free-Left (some bytes) = record { runs = λ w u. u }

  report_error-Left :
      (p : Option Bytes) (n : ℕ) → Contract Never (Left rest) (report_error p n) (λ _. Left rest) E
  unfolding report_error
  report_error-Left none n = record { runs = λ w u. u }
  report_error-Left (some payload) n =
      Contract-if (ltb n 3) (λ _. record { runs = λ w u. u })
        (λ _.
          Contract-if (ltb n (get_u16 payload 1 + 3)) (λ _. record { runs = λ w u. u })
            (λ _. record { runs = λ w u. u }))

check_hello-Left :
    (type n : ℕ) (payload : Option Bytes) (rest : Bytes)
    → Contract Never
        (Left rest)
        (check_hello (record { type = type; payload = payload; payload_len = n }))
        (λ _ w. (type ≡ t_ok) × Left rest w)
        (λ _. ¬ (type ≡ t_ok))
unfolding check_hello
check_hello-Left type n payload rest =
    Contract-if (type == t_error)
      (λ e. Contract-then (report_error-Left payload n) (
        Contract-then (free-Left payload)
          (record { runs = λ w u same. absurd (ground (arith, e, same)) })))
      (λ _. Contract-then (free-Left payload) (
        Contract-if (not (type == t_ok))
          (λ e. record { runs = λ w u same. absurd (ground (arith, e, same)) })
          (λ e. record { runs = λ w u. (ground (arith, e), u) })))

-- Where HELLO goes out, the reply is a frame with a payload within the cap, and the next call of
-- the C library that can fail, the `malloc` for a payload, does not: `do_hello` ends; it returns 0 exactly
-- where the frame's type is OK, and then the bytes behind the frame are the next to come.
pub do_hello-answered :
    (type : ℕ) (payload rest : Bytes) (w : World)
    → frame_lasts 0 w.rooms ≡ true
    → type < 256
    → length payload ≤ payload_cap
    → draw w.faults ≡ false
    → stream w.inbox ≡ frame_bytes type payload ++ rest
    → Ends (λ _ w'. (type ≡ t_ok) × (stream w'.inbox ≡ rest)) (λ _. ¬ (type ≡ t_ok)) (do_hello w)
unfolding do_hello
do_hello-answered type payload rest w sends byte fits given comes =
    let v : World =
      at w (frame_spend 0 w.rooms)
        (w.sent ++ take (frame_carried 0 w.rooms) (frame_bytes t_hello [])) in
    let wrote : write_frame t_hello [] w ≡ ok tt v =
      write_frame-outcome t_hello [] w ∙ ap (λ b. outcome b v) sends in
    let (read, left) = read_frame-frame_bytes type payload rest v byte fits given comes in
    rw (wrote, ◌>>◌, ◌>>=◌)
      (rw (read, ◌>>=◌)
        ((check_hello-Left type (length payload) (block payload) rest).runs (after_frame payload v)
          left))
