-- ===== src/Transfer/PutTracked.antt =====
-- `rtrv_do_put` and the counts: every way out closes the file and frees both replies.
use retriever.Base.{ℕ, zero, suc, ◌-◌, ltb, not, ◌||◌, Bool-cases, inl, inr, length}
use retriever.Base.{◌==◌}
use retriever.Os.World.{Bytes, Node, regular, special, not_found_locally}
use retriever.Os.Program.{M, pure, fail, ◌>>◌, say}
use retriever.Os.Files.{Stream}
use retriever.Os.Triples.{Contract, Contract-bind, Contract-then, Contract-on_error, Contract-pure}
use retriever.Os.Triples.{Contract-fail, Contract-if}
use retriever.Os.Tracking.{Tracking}
use retriever.Os.World.{World}
use retriever.Os.Tracking.{holding, say-Tracked, free-Tracked, release-Tracked, open_read-Tracked}
use retriever.Os.Tracking.{fread-Tracked, seek-Tracked, stat-Tracked}
use retriever.Frame.{Frame, t_ok, t_error}
use retriever.Os.Tracking.{write_all-Tracked}
use retriever.Frame.Tracked.{write_frame-Tracked, read_frame-Tracked, report_error-Tracked}
use retriever.Transfer.Path.{max_name}
use retriever.Transfer.Put.{local_size, read_offset, upload_piece, piece_size, upload_loop, upload}
use retriever.Transfer.Put.{check_verdict, check_offset, send_put, request_put, do_put}
use retriever.Transfer.Tracked.{sha256_file-Tracked}

module _ {W : World → Type 0} {I : ℕ → ℕ → ℕ → World → Type 0} (L : Tracking W I) where
  local_size-Tracked :
      {b h s : ℕ} (path : Bytes) → Contract W (I b h s) (local_size path) (λ _. I b h s) (I b h s)
  unfolding local_size
  local_size-Tracked {b} {h} {s} path =
      Contract-bind (Contract-on_error (stat-Tracked L path) (say-Tracked L)) size
    where
      size :
          (node : Node)
          → Contract W
              (I b h s)
              (elim node as (λ _. M ℕ) [
                | regular bytes ↦ pure (length bytes)
                | special n ↦ say (not_found_locally path) >> fail
              ])
              (λ _. I b h s)
              (I b h s)
      size (regular bytes) = Contract-pure
      size (special n) = Contract-then (say-Tracked L) Contract-fail

  -- A reply in hand owns its payload, which is freed on every branch.
  read_offset-Tracked :
      {b h s : ℕ} (f : Frame)
      → Contract W (I (holding f.payload b) h s) (read_offset f) (λ _. I b h s) (I b h s)
  unfolding read_offset
  read_offset-Tracked f =
      Contract-if (f.type == t_error)
        (λ _.
          Contract-then (report_error-Tracked L f.payload f.payload_len)
            (Contract-then (free-Tracked L f.payload) Contract-fail))
        (λ _.
          Contract-if (not (f.type == t_ok) || ltb f.payload_len 8)
            (λ _.
              Contract-then (say-Tracked L)
                (Contract-then (free-Tracked L f.payload) Contract-fail))
            (λ _. Contract-then (free-Tracked L f.payload) Contract-pure))

  upload_piece-Tracked :
      {b h s : ℕ} (path : Bytes) (want : ℕ) (f : Stream)
      → Contract W (I b (suc h) s) (upload_piece path want f) (λ _. I b (suc h) s) (I b h s)
  unfolding upload_piece
  upload_piece-Tracked {h} path want f = Contract-bind (fread-Tracked L {h = suc h} want f) (λ r.
      Contract-if (not (length r.0 == want))
        (λ _. Contract-then (release-Tracked L) (Contract-then (say-Tracked L) Contract-fail))
        (λ _.
          Contract-then
            (Contract-on_error (write_all-Tracked L {h = suc h} r.0) (release-Tracked L))
            Contract-pure))

  upload_loop-Tracked :
      {b h s : ℕ} (fuel remaining : ℕ) (path : Bytes) (f : Stream)
      → Contract W
          (I b (suc h) s)
          (upload_loop fuel remaining path f)
          (λ _. I b (suc h) s)
          (I b h s)
  unfolding upload_loop
  upload_loop-Tracked zero remaining path f = record { runs = λ w u. u }
  upload_loop-Tracked (suc fuel) remaining path f = record {
    runs = λ w u. elim (Bool-cases (ltb 0 remaining)) [
      | inl e ↦ rw e (
          (Contract-bind (upload_piece-Tracked path (piece_size remaining) f)
              (λ f'. upload_loop-Tracked fuel (remaining - piece_size remaining) path f')).runs
            w u)
      | inr e ↦ rw e u
    ];
  }

  upload-Tracked :
      {b h s : ℕ} (path : Bytes) (file_size offset : ℕ)
      → Contract W (I b h s) (upload path file_size offset) (λ _. I b h s) (I b h s)
  unfolding upload
  upload-Tracked {h} path file_size offset =
      Contract-bind (Contract-on_error (open_read-Tracked L path) (say-Tracked L)) (λ f.
        Contract-bind
          (Contract-on_error (seek-Tracked L {h = suc h} offset f)
            (Contract-then (release-Tracked L) (say-Tracked L)))
          (λ f'.
            Contract-then (upload_loop-Tracked (file_size - offset) (file_size - offset) path f')
              (release-Tracked L)))

  check_verdict-Tracked :
      {b h s : ℕ} (f : Frame)
      → Contract W (I (holding f.payload b) h s) (check_verdict f) (λ _. I b h s) (I b h s)
  unfolding check_verdict
  check_verdict-Tracked f =
      Contract-if (f.type == t_error)
        (λ _.
          Contract-then (report_error-Tracked L f.payload f.payload_len)
            (Contract-then (free-Tracked L f.payload) Contract-fail))
        (λ _. Contract-then (free-Tracked L f.payload) (
          Contract-if (not (f.type == t_ok)) (λ _. Contract-then (say-Tracked L) Contract-fail)
            (λ _. Contract-pure)))

  module _ {b h s : ℕ} where
    check_offset-Tracked :
        (file_size offset : ℕ)
        → Contract W (I b h s) (check_offset file_size offset) (λ _. I b h s) (I b h s)
    unfolding check_offset
    check_offset-Tracked file_size offset =
        Contract-if (ltb file_size offset) (λ _. Contract-then (say-Tracked L) Contract-fail)
          (λ _. Contract-if (ltb 0 offset) (λ _. say-Tracked L) (λ _. Contract-pure))

    request_put-Tracked :
        (path name : Bytes) (file_size : ℕ) (digest : Bytes)
        → Contract W (I b h s) (request_put path name file_size digest) (λ _. I b h s) (I b h s)
    unfolding request_put send_put
    request_put-Tracked path name file_size digest =
        Contract-then (record { runs = λ w. (write_frame-Tracked L _ _).runs w })
          (Contract-bind (read_frame-Tracked L) (λ f.
            Contract-bind (read_offset-Tracked f) (λ offset.
              Contract-then (check_offset-Tracked file_size offset) (
                Contract-then (upload-Tracked path file_size offset) (
                  Contract-bind (read_frame-Tracked L)
                    (λ verdict. Contract-then (check_verdict-Tracked verdict) (say-Tracked L)))))))

    pub do_put-Tracked :
        (path name : Bytes) → Contract W (I b h s) (do_put path name) (λ _. I b h s) (I b h s)
    unfolding do_put
    do_put-Tracked path name = Contract-bind (local_size-Tracked path) (λ file_size.
        Contract-bind (Contract-on_error (sha256_file-Tracked L path) (say-Tracked L)) (λ digest.
          Contract-if (ltb max_name (length name))
            (λ _. Contract-then (say-Tracked L) Contract-fail)
            (λ _. request_put-Tracked path name file_size digest)))
