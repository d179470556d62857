-- ===== src/Session/Tracked.antt =====
-- HELLO, LIST and QUIT and the counts: every reply's payload is freed.
use retriever.Base.{ℕ, zero, suc, ◌+◌, ◌-◌, ltb, not, ◌||◌, Bool, true, false}
use retriever.Base.{if◌then◌else◌, length, drop, get_or, Option, some, none, ◌==◌, []}
use retriever.Os.World.{World, Bytes, listed}
use retriever.Os.Heap.{free}
use retriever.Os.Program.{M, Run, pure, ◌>>=◌, ◌>>◌, say, attempt}
use retriever.Os.Triples.{Contract, Attempted, Contract-bind, Contract-then, Contract-pure}
use retriever.Os.Triples.{Contract-fail, Contract-if, Contract-attempt, Contract-attempt_same}
use retriever.Os.Tracking.{Tracking}
use retriever.Os.World.{World}
use retriever.Os.Tracking.{holding, say-Tracked, free-Tracked}
use retriever.Frame.{Frame, read_frame, t_ok, t_error, printed}
use retriever.Frame.Tracked.{write_frame-Tracked, read_frame-Tracked, report_error-Tracked}
use retriever.Session.{check_hello, do_hello, list_loop, show_list, do_list, do_quit, payload_bytes}

module _ {W : World → Type 0} {I : ℕ → ℕ → ℕ → World → Type 0} (L : Tracking W I) where
  check_hello-Tracked :
      {b h s : ℕ} (f : Frame)
      → Contract W (I (holding f.payload b) h s) (check_hello f) (λ _. I b h s) (I b h s)
  unfolding check_hello
  check_hello-Tracked f =
      Contract-if (f.type == t_error)
        (λ _.
          Contract-then (report_error-Tracked L f.payload f.payload_len)
            (Contract-then (free-Tracked L f.payload) Contract-fail))
        (λ _. Contract-then (free-Tracked L f.payload) (
          Contract-if (not (f.type == t_ok)) (λ _. Contract-then (say-Tracked L) Contract-fail)
            (λ _. Contract-pure)))

  list_round-Tracked :
      {b h s : ℕ} {E : World → Type 0} (last : Bool) (left i first : ℕ) (payload : Bytes)
      → ((j k : ℕ) → Contract W (I b h s) (list_loop left j k payload) (λ _. I b h s) E)
      → Contract W
          (I b h s)
          (λ w. elim last as (λ _. Run (Unit {0})) [
            | true ↦
                ((if ltb first i
                      then say (listed (printed (i - first) (drop first payload)))
                      else pure tt)
                    >> list_loop left (i + 1) (i + 1) payload)
                  w
            | false ↦ list_loop left (i + 1) first payload w
          ])
          (λ _. I b h s)
          E
  list_round-Tracked true left i first payload t =
      Contract-then (Contract-if (ltb first i) (λ _. say-Tracked L) (λ _. Contract-pure))
        (t (i + 1) (i + 1))
  list_round-Tracked false left i first payload t = t (i + 1) first

  list_loop-Tracked :
      {b h s : ℕ} {E : World → Type 0} (left i first : ℕ) (payload : Bytes)
      → Contract W (I b h s) (list_loop left i first payload) (λ _. I b h s) E
  unfolding list_loop
  list_loop-Tracked zero i first payload = record { runs = λ w u. u }
  list_loop-Tracked (suc left) i first payload =
      list_round-Tracked ((i == length payload) || (get_or payload i 0 == 0)) left i first payload
        (λ j k. list_loop-Tracked left j k payload)

  show_list-Tracked :
      {b h s : ℕ} (f : Frame)
      → Contract W (I (holding f.payload b) h s) (show_list f) (λ _. I b h s) (I b h s)
  unfolding show_list
  show_list-Tracked f =
      Contract-if (f.type == t_error)
        (λ _.
          Contract-then (report_error-Tracked L f.payload f.payload_len)
            (Contract-then (free-Tracked L f.payload) Contract-fail))
        (λ _.
          Contract-if (not (f.type == t_ok))
            (λ _.
              Contract-then (say-Tracked L)
                (Contract-then (free-Tracked L f.payload) Contract-fail))
            (λ _.
              Contract-then (list_loop-Tracked _ 0 0 (payload_bytes f.payload))
                (free-Tracked L f.payload)))

  module _ {b h s : ℕ} where
    pub do_hello-Tracked : Contract W (I b h s) do_hello (λ _. I b h s) (I b h s)
    unfolding do_hello
    do_hello-Tracked =
        Contract-then (write_frame-Tracked L _ [])
          (Contract-bind (read_frame-Tracked L) check_hello-Tracked)

    pub do_list-Tracked : Contract W (I b h s) do_list (λ _. I b h s) (I b h s)
    unfolding do_list
    do_list-Tracked =
        Contract-then (write_frame-Tracked L _ [])
          (Contract-bind (read_frame-Tracked L) show_list-Tracked)

    -- The reply to QUIT, where one came.
    let_go-Tracked :
        {E : World → Type 0} (f : Option Frame)
        → Contract W
            (Attempted (λ (f : Frame). I (holding f.payload b) h s) (I b h s) f)
            (elim f as (λ _. M (Unit {0})) [ none ↦ pure tt | some frame ↦ free frame.payload ])
            (λ _. I b h s)
            E
    let_go-Tracked none = Contract-pure
    let_go-Tracked (some f) = free-Tracked L f.payload

    await-Tracked :
        {E : World → Type 0} (wrote : Option (Unit {0}))
        → Contract W
            (I b h s)
            (elim wrote as (λ _. M (Unit {0})) [
              | none ↦ pure tt
              | some _ ↦ attempt read_frame >>= λ f. elim f as (λ _. M (Unit {0})) [
                | none ↦ pure tt
                | some frame ↦ free frame.payload
              ]
            ])
            (λ _. I b h s)
            E
    await-Tracked none = Contract-pure
    await-Tracked (some _) = Contract-bind (Contract-attempt (read_frame-Tracked L)) let_go-Tracked

    pub do_quit-Tracked : {E : World → Type 0} → Contract W (I b h s) do_quit (λ _. I b h s) E
    unfolding do_quit
    do_quit-Tracked =
        Contract-bind (Contract-attempt_same (write_frame-Tracked L _ [])) await-Tracked
