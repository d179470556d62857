-- ===== src/Frame/Tracked.antt =====
-- Frames and the counts: a frame that is read owns its payload, and nothing else is kept.
use retriever.Base.{ℕ, suc, ltb}
use retriever.Base.{[], Option, some, none, length, ◌==◌, ◌+◌, not, bytes_eq, take, get_or}
use retriever.Packing.{get_u16}
use retriever.Os.World.{World, Bytes}
use retriever.Os.Triples.{Contract, Contract-bind, Contract-then, Contract-on_error, Contract-pure}
use retriever.Os.Triples.{Contract-fail, Contract-if}
use retriever.Os.Tracking.{Tracking}
use retriever.Os.World.{World}
use retriever.Os.Tracking.{holding, say-Tracked, malloc-Tracked, free-Tracked}
use retriever.Frame.{payload_cap, magic, version}
use retriever.Frame.{write_frame, check_header, read_frame_header, read_payload}
use retriever.Frame.{read_frame, report_error}
use retriever.Os.Tracking.{read_exact-Tracked, write_all-Tracked}

module _ {W : World → Type 0} {I : ℕ → ℕ → ℕ → World → Type 0} (L : Tracking W I) where
  module _ {b h s : ℕ} where
    pub write_frame-Tracked :
        (type : ℕ) (payload : Bytes)
        → Contract W (I b h s) (write_frame type payload) (λ _. I b h s) (I b h s)
    unfolding write_frame
    write_frame-Tracked type payload = record {
      runs = λ w.
          (Contract-then (write_all-Tracked L _) (
              Contract-if (ltb 0 (length payload)) (λ _. write_all-Tracked L payload)
                (λ _. Contract-pure))).runs
            w;
    }

    check_header-Tracked :
        (header : Bytes) → Contract W (I b h s) (check_header header) (λ _. I b h s) (I b h s)
    unfolding check_header
    check_header-Tracked header =
        Contract-if (not (bytes_eq (take 4 header) magic))
          (λ _. Contract-then (say-Tracked L) Contract-fail)
          (λ _.
            Contract-if (not (get_or header 4 0 == version))
              (λ _. Contract-then (say-Tracked L) Contract-fail) (λ _. Contract-pure))

    pub read_frame_header-Tracked : Contract W (I b h s) read_frame_header (λ _. I b h s) (I b h s)
    unfolding read_frame_header
    read_frame_header-Tracked = Contract-bind (read_exact-Tracked L _) check_header-Tracked

  read_payload-Tracked :
      {b h s : ℕ} (n : ℕ) → Contract W (I b h s) (read_payload n) (λ _. I (suc b) h s) (I b h s)
  unfolding read_payload
  read_payload-Tracked {b} n =
      Contract-then (Contract-on_error (malloc-Tracked L) (say-Tracked L))
        (Contract-on_error (read_exact-Tracked L {b = suc b} n) (free-Tracked L {b = b} (some [])))

  module _ {b h s : ℕ} where
    pub read_frame-Tracked :
        Contract W (I b h s) read_frame (λ f. I (holding f.payload b) h s) (I b h s)
    unfolding read_frame
    read_frame-Tracked = Contract-bind read_frame_header-Tracked (λ hd.
        Contract-if (ltb payload_cap hd.payload_len)
          (λ _. Contract-then (say-Tracked L) Contract-fail)
          (λ _.
            Contract-if (hd.payload_len == 0) (λ _. Contract-pure)
              (λ _. Contract-bind (read_payload-Tracked hd.payload_len) (λ bytes. Contract-pure))))

    pub report_error-Tracked :
        {E : World → Type 0} (payload : Option Bytes) (n : ℕ)
        → Contract W (I b h s) (report_error payload n) (λ _. I b h s) E
    unfolding report_error
    report_error-Tracked none n = say-Tracked L
    report_error-Tracked (some payload) n =
        Contract-if (ltb n 3) (λ _. say-Tracked L)
          (λ _.
            Contract-if (ltb n (get_u16 payload 1 + 3)) (λ _. say-Tracked L) (λ _. say-Tracked L))
