-- ===== src/Transfer/Put/Sending.antt =====
-- What PUT's calls do to the files and to the bytes that are sent.
use retriever.Base.{ℕ, ◌≡◌, refl, ap, arith, Bool-cases, inl, inr, not}
use retriever.Base.{[], ◌∷◌, ◌++◌, append_assoc, append-nil, List, Option, some, none, length, take}
use retriever.Base.{leb, leb→le, ltb, if◌then◌else◌, ◌==◌, bytes_eq, get_or}
use retriever.Os.World.{World, Bytes, Key, Node, Message}
use retriever.Os.Program.{pure, say, draw, local_array}
use retriever.Os.Heap.{malloc, free}
use retriever.Os.Triples.{Settles}
use retriever.Os.Triples.{Triple, Anything, Contract-Anything, Contract-bind, Contract-then}
use retriever.Os.Triples.{
  Contract-pure, Contract-refuse, Contract-if, Contract-on_error, Contract-said,
}
use retriever.Socket.{read_exact, write_all}
use retriever.Socket.Stream.{stream, ending, advance}
use retriever.Socket.Read.{read_exact_full, read_exact_short}
use retriever.Socket.Write.{lasts, write_all_ok, write_all_err}
use retriever.Frame.{write_frame, header_size, read_frame_header, check_header, read_frame}
use retriever.Frame.{read_payload, magic, version, payload_cap}
use retriever.Frame.Encoding.{encode_header, fill_header-eq, length-local_array}
use retriever.Frame.Writing.{frame_bytes}
use retriever.Transfer.Get.Incoming.{Lands-stop}

-- The files, and the bytes sent so far.
abbrev pub At : List (Key × Node) → Bytes → World → Type 0
At files sent w = (w.files ≡ files) × (w.sent ≡ sent)

module _ {files : List (Key × Node)} where
  pub write_all-At :
      (sent p : Bytes) → Triple (At files sent) (write_all p) (λ _. At files (sent ++ p)) Anything
  write_all-At sent p = record {
    runs = λ w (same, e). elim (Bool-cases (lasts (length p) w.rooms)) [
      | inl all ↦ rw (write_all_ok p (length p) w refl all) (same, ap (λ (b : Bytes). b ++ p) e)
      | inr cut ↦ rw (write_all_err p (length p) w refl cut) tt
    ];
  }

  write_payload-At :
      (sent p : Bytes)
      → Triple
          (At files sent)
          (if ltb 0 (length p) then write_all p else pure tt)
          (λ _. At files (sent ++ p))
          Anything
  write_payload-At sent [] = record { runs = λ w u. rw append-nil u }
  write_payload-At sent (b ∷ p) =
      Contract-if (ltb 0 (length (b ∷ p))) (λ _. write_all-At sent (b ∷ p))
        (λ e. absurd (ground arith))

  pub write_frame-At :
      (sent : Bytes) (type : ℕ) (payload : Bytes)
      → Triple
          (At files sent)
          (write_frame type payload)
          (λ _. At files (sent ++ frame_bytes type payload))
          Anything
  unfolding write_frame
  write_frame-At sent type payload = record {
    runs = λ w u.
        rw
          (
            fill_header-eq (local_array header_size w) type (length payload)
                (length-local_array header_size w),
            ← append_assoc sent (encode_header type (length payload)) payload,
          )
          ((Contract-then (write_all-At sent (encode_header type (length payload)))
              (write_payload-At (sent ++ encode_header type (length payload)) payload)).runs
            w u);
  }

module _ {files : List (Key × Node)} {sent : Bytes} where
  pub say-At :
      {E : World → Type 0} {message : Message}
      → Triple (At files sent) (say message) (λ _. At files sent) E
  say-At = record { runs = λ w u. u }

  pub free-At :
      {E : World → Type 0} (p : Option Bytes)
      → Triple (At files sent) (free p) (λ _. At files sent) E
  unfolding free
  free-At none = record { runs = λ w u. u }
  free-At (some bytes) = record { runs = λ w u. u }

  malloc-At : Triple (At files sent) malloc (λ _. At files sent) Anything
  unfolding malloc
  malloc-At = record {
    runs = λ w u. elim (Bool-cases (draw w.faults)) [
      | inl e ↦ rw (e, Settles) tt
      | inr e ↦ rw (e, Settles) u
    ];
  }

  read_exact-At : (n : ℕ) → Triple (At files sent) (read_exact n) (λ _. At files sent) Anything
  read_exact-At n = record {
    runs = λ w u. elim (Bool-cases (leb n (length (stream w.inbox)))) [
      | inl enough ↦ rw (read_exact_full n w (leb→le _ _ enough)) u
      | inr missing ↦
          rw (read_exact_short n w (ground arith))
            (Lands-stop _ (ending w.inbox) (record w { inbox = advance n w.inbox }))
    ];
  }

  check_header-At :
      (header : Bytes) → Triple (At files sent) (check_header header) (λ _. At files sent) Anything
  unfolding check_header
  check_header-At header =
      Contract-if (not (bytes_eq (take 4 header) magic)) (λ _. Contract-refuse)
        (λ _.
          Contract-if (not (get_or header 4 0 == version)) (λ _. Contract-refuse)
            (λ _. Contract-pure))

  read_payload-At : (n : ℕ) → Triple (At files sent) (read_payload n) (λ _. At files sent) Anything
  unfolding read_payload
  read_payload-At n =
      Contract-then (Contract-on_error malloc-At Contract-said)
        (Contract-on_error (read_exact-At n) (Contract-Anything (free (some []))))

  pub read_frame-At : Triple (At files sent) read_frame (λ _. At files sent) Anything
  unfolding read_frame read_frame_header
  read_frame-At = Contract-bind (Contract-bind (read_exact-At header_size) check_header-At) (λ hd.
      Contract-if (ltb payload_cap hd.payload_len) (λ _. Contract-refuse)
        (λ _.
          Contract-if (hd.payload_len == 0) (λ _. Contract-pure)
            (λ _. Contract-bind (read_payload-At hd.payload_len) (λ bytes. Contract-pure))))
