-- ===== src/Transfer/Get/Incoming.antt =====
-- What `rtrv_do_get` has read of the connection, up to the metadata.
use retriever.Base.{ℕ, ◌≡◌, ◌∙◌, ap, Bool, true, false, Bool-cases, inl, inr, arith}
use retriever.Base.{
  length, take, drop, leb, leb→le, ltb, some, none, not, ◌==◌, bytes_eq, get_or, [],
}
use retriever.Os.World.{World, Bytes, Message, out_of_memory}
use retriever.Os.Program.{M, pure, attempt, ◌on_error◌, say}
use retriever.Os.Heap.{malloc, free}
use retriever.Os.Files.{stat, open_dir, release}
use retriever.Os.Triples.{
  Contract, Triple, Lands, Anything, Contract-Anything, Contract-bind, Contract-then,
}
use retriever.Os.Triples.{Contract-pure, Contract-fail, Contract-refuse, Contract-if}
use retriever.Socket.{read_exact, write_all}
use retriever.Socket.Stream.{Ending, open_ended, cut, shut, stream, ending, advance, stream-advance}
use retriever.Socket.Read.{stop, read_exact_full, read_exact_short}
use retriever.Socket.Write.{outcome, lasts, write_all-outcome}
use retriever.Frame.{
  write_frame, Header, check_header, read_frame_header, magic, version, header_size,
}
use retriever.Frame.{t_ok, t_error, payload_cap, report_error}
use retriever.Transfer.Get.{check_get_reply, read_error}

-- The bytes that are still to come.
abbrev pub Comes : Bytes → World → Type 0
Comes bytes w = stream w.inbox ≡ bytes

-- What a read of `n` bytes leaves.
abbrev pub ReadOf : Bytes → ℕ → Bytes → World → Type 0
ReadOf bytes n got w = (got ≡ take n bytes) × Comes (drop n bytes) w

pub Lands-stop : (Q : Bytes → World → Type 0) (e : Ending) (w : World) → Lands Q Anything (stop e w)
Lands-stop Q open_ended w = tt
Lands-stop Q cut w = tt
Lands-stop Q shut w = tt

module _ {bytes : Bytes} where
  pub read_exact-ReadOf : (n : ℕ) → Triple (Comes bytes) (read_exact n) (ReadOf bytes n) Anything
  read_exact-ReadOf n = record {
    runs = λ w u. elim (Bool-cases (leb n (length (stream w.inbox)))) [
      | inl enough ↦ rw (read_exact_full n w (leb→le _ _ enough)) (
        ap (λ (s : Bytes). take n s) u,
        stream-advance n w.inbox (leb→le _ _ enough) ∙ ap (λ (s : Bytes). drop n s) u,
      )
      | inr missing ↦
          rw (read_exact_short n w (ground arith))
            (Lands-stop _ (ending w.inbox) (record w { inbox = advance n w.inbox }))
    ];
  }

  Lands-outcome :
      (done : Bool) (w : World) → Comes bytes w → Lands (λ _. Comes bytes) Anything (outcome done w)
  Lands-outcome true w u = u
  Lands-outcome false w u = tt

  write_all-Comes : (p : Bytes) → Triple (Comes bytes) (write_all p) (λ _. Comes bytes) Anything
  write_all-Comes p = record {
    runs = λ w u. rw (write_all-outcome p w) (Lands-outcome (lasts (length p) w.rooms) _ u);
  }

  pub write_frame-Comes :
      (type : ℕ) (payload : Bytes)
      → Triple (Comes bytes) (write_frame type payload) (λ _. Comes bytes) Anything
  unfolding write_frame
  write_frame-Comes type payload = record {
    runs = λ w.
        (Contract-then (write_all-Comes _) (
            Contract-if (ltb 0 (length payload)) (λ _. write_all-Comes payload)
              (λ _. Contract-pure))).runs
          w;
  }

  check_header-Comes :
      (header : Bytes) → Triple (Comes bytes) (check_header header) (λ _. Comes bytes) Anything
  unfolding check_header
  check_header-Comes header =
      Contract-if (not (bytes_eq (take 4 header) magic)) (λ _. Contract-refuse)
        (λ _.
          Contract-if (not (get_or header 4 0 == version)) (λ _. Contract-refuse)
            (λ _. Contract-pure))

  -- An ERROR reply is read and reported, and ends the request.
  read_error-fails : (n : ℕ) → Triple (Comes bytes) (read_error n) (λ _. Comes bytes) Anything
  unfolding read_error
  read_error-fails n = Contract-then (Contract-Anything (malloc on_error say out_of_memory)) (
      Contract-bind (Contract-Anything (attempt (read_exact n))) (λ payload.
        Contract-then
          (Contract-Anything (elim payload as (λ _. M (Unit {0})) [
            | none ↦ pure tt
            | some got ↦ report_error (some got) n
          ]))
          (Contract-then (Contract-Anything (free (some []))) Contract-fail)))

  pub check_get_reply-Comes :
      (h : Header) → Triple (Comes bytes) (check_get_reply h) (λ _. Comes bytes) Anything
  unfolding check_get_reply
  check_get_reply-Comes h =
      Contract-if (h.type == t_error)
        (λ _.
          Contract-if (ltb payload_cap h.payload_len) (λ _. Contract-refuse)
            (λ _. read_error-fails h.payload_len))
        (λ _. Contract-if (not (h.type == t_ok)) (λ _. Contract-refuse) (λ _. Contract-pure))

  pub stat-Comes :
      {W : World → Type 0} (path : Bytes)
      → Contract W (Comes bytes) (stat path) (λ _. Comes bytes) (Comes bytes)
  unfolding stat
  stat-Comes path = record { runs = λ w u. ground (arith, u) }

  pub open_dir-Comes :
      {W : World → Type 0} (path : Bytes)
      → Contract W (Comes bytes) (open_dir path) (λ _. Comes bytes) (Comes bytes)
  unfolding open_dir
  open_dir-Comes path = record { runs = λ w u. ground (arith, u) }

  pub release-Comes : {W E : World → Type 0} → Contract W (Comes bytes) release (λ _. Comes bytes) E
  unfolding release
  release-Comes = record { runs = λ w u. u }

  pub say-Comes :
      {W E : World → Type 0} {message : Message}
      → Contract W (Comes bytes) (say message) (λ _. Comes bytes) E
  say-Comes = record { runs = λ w u. u }

pub read_frame_header-Comes :
    {bytes : Bytes}
    → Triple (Comes bytes) read_frame_header (λ _. Comes (drop header_size bytes)) Anything
unfolding read_frame_header
read_frame_header-Comes =
    Contract-bind (read_exact-ReadOf header_size)
      (λ header. record { runs = λ w u. (check_header-Comes header).runs w u.1 })
