-- ===== src/Transfer/GetTracked.antt =====
-- `rtrv_do_get` and the counts: every way out closes what was opened and frees what was allocated.
use retriever.Base.{ℕ, zero, suc, ◌-◌, ltb, not, Bool-cases, inl, inr, [], length}
use retriever.Base.{Option, some, none, ◌==◌, bytes_eq}
use retriever.Os.World.{World, Bytes}
use retriever.Os.Program.{M, pure}
use retriever.Os.Triples.{Contract, Contract-bind, Contract-then, Contract-on_error, Contract-pure}
use retriever.Os.Triples.{Contract-fail, Contract-if, Contract-attempt_same}
use retriever.Os.Tracking.{Tracking}
use retriever.Os.World.{World}
use retriever.Os.Tracking.{
  say-Tracked, malloc-Tracked, free-Tracked, release-Tracked, open_write-Tracked,
}
use retriever.Os.Tracking.{fwrite-Tracked, close_written-Tracked, remove-Tracked, rename-Tracked}
use retriever.Os.Triples.{Attempted, Contract-attempt, Contract-given}
use retriever.Os.Tracking.{Publishing}
use retriever.Os.Files.{resolve}
use retriever.Transfer.Partial.{Found}
use retriever.Transfer.Tracked.{IsFound}
use retriever.Transfer.Get.Beside.{IsBeside}
use retriever.Frame.{Header, payload_cap, t_ok, t_error, report_error}
use retriever.Os.Tracking.{read_exact-Tracked}
use retriever.Frame.Tracked.{write_frame-Tracked}
use retriever.Frame.Tracked.{read_frame_header-Tracked, report_error-Tracked}
use retriever.Transfer.Path.{max_name, path_max}
use retriever.Transfer.Get.{Resume, Meta, send_get, read_error, check_get_reply, download_piece}
use retriever.Transfer.Get.{piece_size, download_loop, body_size, settle_partial, publish, download}
use retriever.Transfer.Get.{request_get, do_get, forget, parse_meta, get_meta_size, resume_of}
use retriever.Transfer.Tracked.{sha256_file-Tracked, file_exists-Tracked, find_partial-Tracked}
use retriever.Transfer.Tracked.{partial_name-Tracked}

-- The partial file that is known of, if any.
abbrev IsKnown : Bytes → Option Bytes → Type 0
IsKnown dest none = Unit {0}
IsKnown dest (some path) = IsBeside dest path

-- What a search gave is what is resumed.
resumed :
    {A : Type 0} {W P E : World → Type 0} {Q : A → World → Type 0} {m : M A} (dest : Bytes)
    (found : Option (Option Found))
    → (IsKnown dest (resume_of found).existing → Contract W P m Q E)
    → Contract W (Attempted (λ found w. IsFound dest found × P w) P found) m Q E
resumed dest none t = t tt
resumed dest (some none) t = record { runs = λ w p. (t tt).runs w p.1 }
resumed dest (some (some f)) t = Contract-given t

module _ {W : World → Type 0} {I : ℕ → ℕ → ℕ → World → Type 0} (L : Tracking W I) where
  report-Tracked :
      {b h s : ℕ} {E : World → Type 0} (payload : Option Bytes) (n : ℕ)
      → Contract W
          (I b h s)
          (elim payload as (λ _. M (Unit {0})) [
            | none ↦ pure tt
            | some bytes ↦ report_error (some bytes) n
          ])
          (λ _. I b h s)
          E
  report-Tracked none n = Contract-pure
  report-Tracked (some bytes) n = report_error-Tracked L (some bytes) n

  read_error-Tracked :
      {b h s : ℕ} (n : ℕ) → Contract W (I b h s) (read_error n) (λ _. I b h s) (I b h s)
  unfolding read_error
  read_error-Tracked {b} n = Contract-then (Contract-on_error (malloc-Tracked L) (say-Tracked L)) (
      Contract-bind (Contract-attempt_same (read_exact-Tracked L {b = suc b} n)) (λ payload.
        Contract-then (report-Tracked {b = suc b} payload n)
          (Contract-then (free-Tracked L {b = b} (some [])) Contract-fail)))

  pub check_get_reply-Tracked :
      {b h s : ℕ} (hd : Header) → Contract W (I b h s) (check_get_reply hd) (λ _. I b h s) (I b h s)
  unfolding check_get_reply
  check_get_reply-Tracked hd =
      Contract-if (hd.type == t_error)
        (λ _.
          Contract-if (ltb payload_cap hd.payload_len)
            (λ _. Contract-then (say-Tracked L) Contract-fail)
            (λ _. read_error-Tracked hd.payload_len))
        (λ _.
          Contract-if (not (hd.type == t_ok)) (λ _. Contract-then (say-Tracked L) Contract-fail)
            (λ _. Contract-pure))

  -- A round that fails has closed the file.
  download_piece-Tracked :
      {b h s : ℕ} (partial : Bytes) (want : ℕ)
      → L.Allowed (resolve partial)
      → Contract W (I b (suc h) s) (download_piece partial want) (λ _. I b (suc h) s) (I b h s)
  unfolding download_piece
  download_piece-Tracked {h} partial want allowed =
      Contract-bind
        (Contract-on_error (read_exact-Tracked L {h = suc h} want)
          (Contract-then (release-Tracked L) (say-Tracked L)))
        (λ bytes.
          Contract-on_error (fwrite-Tracked L {h = suc h} partial bytes allowed)
            (Contract-then (release-Tracked L) (say-Tracked L)))

  download_loop-Tracked :
      {b h s : ℕ} (fuel remaining : ℕ) (partial : Bytes)
      → L.Allowed (resolve partial)
      → Contract W
          (I b (suc h) s)
          (download_loop fuel remaining partial)
          (λ _. I b (suc h) s)
          (I b h s)
  unfolding download_loop
  download_loop-Tracked zero remaining partial allowed = record { runs = λ w u. u }
  download_loop-Tracked (suc fuel) remaining partial allowed = record {
    runs = λ w u. elim (Bool-cases (ltb 0 remaining)) [
      | inl e ↦ rw e (
          (Contract-bind (download_piece-Tracked partial (piece_size remaining) allowed) (λ _.
              download_loop-Tracked fuel (remaining - piece_size remaining) partial allowed)).runs
            w u)
      | inr e ↦ rw e u
    ];
  }

  -- A transfer to `dest`, whose partial files are allowed to change, and which makes `J` of the
  -- invariant where it replaces what stands at `dest`.
  module _ {J : ℕ → ℕ → ℕ → World → Type 0} {b h s : ℕ} (dest : Bytes)
      (beside : (p : Bytes) → IsBeside dest p → L.Allowed (resolve p))
      (to : Publishing I J (resolve dest)) where
    forget-Tracked :
        {E : World → Type 0} (existing : Option Bytes)
        → IsKnown dest existing
        → Contract W (I b h s) (forget existing) (λ _. I b h s) E
    forget-Tracked none known = Contract-pure
    forget-Tracked (some path) known = remove-Tracked L path (beside path known)

    settle_partial-Tracked :
        {E : World → Type 0} (name : Bytes) (resume : Resume) (start : ℕ)
        → IsKnown dest resume.existing
        → Contract W (I b h s) (settle_partial name resume start) (λ _. I b h s) E
    unfolding settle_partial
    settle_partial-Tracked name resume start known =
        Contract-if (ltb 0 start) (λ _. say-Tracked L) (λ _. forget-Tracked resume.existing known)

    publish-Tracked :
        (partial actual digest : Bytes)
        → IsBeside dest partial
        → Contract W (I b h s) (publish partial dest actual digest) (λ _. J b h s) (I b h s)
    unfolding publish
    publish-Tracked partial actual digest at =
        Contract-if (bytes_eq actual digest)
          (λ _.
            Contract-on_error (rename-Tracked L partial dest (beside partial at) to)
              (say-Tracked L))
          (λ _.
            Contract-then (remove-Tracked L partial (beside partial at))
              (Contract-then (say-Tracked L) Contract-fail))

    download-Tracked :
        (name : Bytes) (resume : Resume) (m : Meta) (partial : Bytes)
        → IsKnown dest resume.existing
        → IsBeside dest partial
        → Contract W (I b h s) (download name dest resume m partial) (λ _. J b h s) (I b h s)
    unfolding download
    download-Tracked name resume m partial known at =
        Contract-then (settle_partial-Tracked name resume m.start known) (
          Contract-then
            (Contract-on_error (open_write-Tracked L partial (ltb 0 m.start) (beside partial at))
              (say-Tracked L))
            (Contract-then
              (download_loop-Tracked (body_size m) (body_size m) partial (beside partial at))
              (Contract-then (Contract-on_error (close_written-Tracked L) (say-Tracked L)) (
                Contract-bind (Contract-on_error (sha256_file-Tracked L partial) (say-Tracked L))
                  (λ actual.
                    Contract-then (publish-Tracked partial actual m.digest at)
                      (record { runs = λ w u. to.prints b h s w _ u }))))))

    request_get-Tracked :
        (name : Bytes) (resume : Resume)
        → IsKnown dest resume.existing
        → Contract W (I b h s) (request_get name dest resume) (λ _. J b h s) (I b h s)
    unfolding request_get send_get
    request_get-Tracked name resume known =
        Contract-then (record { runs = λ w. (write_frame-Tracked L _ _).runs w })
          (Contract-bind (read_frame_header-Tracked L) (λ hd.
            Contract-then (check_get_reply-Tracked hd) (
              Contract-bind (read_exact-Tracked L get_meta_size) (λ meta.
                Contract-bind (partial_name-Tracked L dest (parse_meta meta).digest path_max)
                  (λ partial.
                    Contract-given
                      (λ at. download-Tracked name resume (parse_meta meta) partial known at))))))

    pub do_get-Tracked :
        (name : Bytes) → Contract W (I b h s) (do_get name dest) (λ _. J b h s) (I b h s)
    unfolding do_get
    do_get-Tracked name = Contract-bind (file_exists-Tracked L dest) (λ exists.
        Contract-if exists (λ _. Contract-then (say-Tracked L) Contract-fail)
          (λ _. Contract-bind (Contract-attempt (find_partial-Tracked L dest)) (λ found.
            resumed dest found (λ known.
              Contract-if (ltb max_name (length name))
                (λ _. Contract-then (say-Tracked L) Contract-fail)
                (λ _. request_get-Tracked name (resume_of found) known)))))
