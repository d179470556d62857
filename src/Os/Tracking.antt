-- ===== src/Os/Tracking.antt =====
-- An invariant that is indexed by the blocks, handles and sockets in use, followed through the calls
-- of the C library.
use retriever.Base.{ℕ, suc, ◌+◌, ◌-◌, ◌≡◌, refl, arith, Bool, true, false, Bool-cases, inl, inr}
use retriever.Base.{List, Option, some, none, leb, leb→le, length}
use retriever.Os.World.{World, Message, Bytes, Key, Node}
use retriever.Os.Program.{Run, ok, err, say, draw, drawn}
use retriever.Os.Heap.{malloc, free}
use retriever.Os.Files.{Stream, stat, open_read, fread, seek, release, open_write}
use retriever.Os.Files.{fwrite, close_written, remove, rename, open_dir, resolve}
use retriever.Os.Files.{insert, erase}
use retriever.Os.Triples.{Settles, Contract}
use retriever.Socket.{read_exact, write_all}
use retriever.Socket.Stream.{Ending, open_ended, cut, shut, stream, ending, advance}
use retriever.Socket.Read.{stop, read_exact_full, read_exact_short}
use retriever.Socket.Write.{outcome, lasts, spend, write_all-outcome}

-- The blocks with one more for a pointer that is not NULL.
abbrev pub holding : Option Bytes → ℕ → ℕ
holding none b = b
holding (some bytes) b = suc b

-- What each kind of change makes of the invariant `I b h s`, and what is left where a call waits for
-- ever: `W`. Files change only at places that are allowed.
pub record Tracking (W : World → Type 0) (I : ℕ → ℕ → ℕ → World → Type 0) : Type 1 where
  pub Allowed : Key → Type 0
  pub logs :
      (b h s : ℕ) (w : World) (log : List Message) → I b h s w → I b h s (record w { log = log })
  pub draws : (b h s : ℕ) (w : World) → I b h s w → I b h s (record w { faults = drawn w.faults })
  pub allocates :
      (b h s : ℕ) (w : World) → I b h s w → I (suc b) h s (record w { heap = w.heap + 1 })
  pub frees : (b h s : ℕ) (w : World) → I (suc b) h s w → I b h s (record w { heap = w.heap - 1 })
  pub opens :
      (b h s : ℕ) (w : World) → I b h s w → I b (suc h) s (record w { handles = w.handles + 1 })
  pub shuts :
      (b h s : ℕ) (w : World) → I b (suc h) s w → I b h s (record w { handles = w.handles - 1 })
  pub connects :
      (b h s : ℕ) (w : World) → I b h s w → I b h (suc s) (record w { sockets = w.sockets + 1 })
  pub disconnects :
      (b h s : ℕ) (w : World) → I b h (suc s) w → I b h s (record w { sockets = w.sockets - 1 })
  pub reads :
      (b h s : ℕ) (w : World) (n : ℕ) → I b h s w → I b h s (record w { inbox = advance n w.inbox })
  pub idles :
      (b h s : ℕ) (w : World) (n : ℕ)
      → ending w.inbox ≡ open_ended
      → I b h s w
      → W (record w { inbox = advance n w.inbox })
  pub writes :
      (b h s : ℕ) (w : World) (n : ℕ) (sent : Bytes)
      → I b h s w
      → I b h s (record w { rooms = spend n w.rooms; sent = sent })
  pub stores :
      (b h s : ℕ) (w : World) (k : Key) (node : Node)
      → Allowed k
      → I b h s w
      → I b h s (record w { files = insert k node w.files })
  pub erases :
      (b h s : ℕ) (w : World) (k : Key)
      → Allowed k
      → I b h s w
      → I b h s (record w { files = erase k w.files })

-- A call that fails where a file is missing or of the wrong kind.
Settles-put :
    (W Q E : World → Type 0) (o : Option Node) {w : World} {f : Node → World}
    → E w
    → ((node : Node) → Q (f node))
    → Settles W
        (λ (_ : Unit {0}). Q)
        E
        (elim o as (λ _. Run (Unit {0})) [ none ↦ err w | some node ↦ ok tt (f node) ])
Settles-put W Q E none u t = u
Settles-put W Q E (some node) u t = t node

module _ {W : World → Type 0} {I : ℕ → ℕ → ℕ → World → Type 0} (L : Tracking W I) {b h s : ℕ} where
  pub say-Tracked :
      {E : World → Type 0} {message : Message} → Contract W (I b h s) (say message) (λ _. I b h s) E
  say-Tracked = record { runs = λ w u. L.logs b h s w _ u }

  pub malloc-Tracked : Contract W (I b h s) malloc (λ _. I (suc b) h s) (I b h s)
  unfolding malloc
  malloc-Tracked = record {
    runs = λ w u. elim (Bool-cases (draw w.faults)) [
      | inl e ↦ rw e (L.draws b h s w u)
      | inr e ↦ rw e (L.draws (suc b) h s _ (L.allocates b h s w u))
    ];
  }

  pub stat-Tracked : (path : Bytes) → Contract W (I b h s) (stat path) (λ _. I b h s) (I b h s)
  unfolding stat
  stat-Tracked path = record { runs = λ w u. let v = L.draws b h s w u in ground (arith, v) }

  pub open_read-Tracked :
      (path : Bytes) → Contract W (I b h s) (open_read path) (λ _. I b (suc h) s) (I b h s)
  unfolding open_read
  open_read-Tracked path = record {
    runs = λ w u.
        let v = L.draws b h s w u in
        let o = L.opens b h s (record w { faults = drawn w.faults }) v in ground (arith, v, o);
  }

  pub fread-Tracked :
      {E : World → Type 0} (n : ℕ) (f : Stream) → Contract W (I b h s) (fread n f) (λ _. I b h s) E
  unfolding fread
  fread-Tracked n f = record { runs = λ w u. let v = L.draws b h s w u in ground (arith, v) }

  pub seek-Tracked : (n : ℕ) (f : Stream) → Contract W (I b h s) (seek n f) (λ _. I b h s) (I b h s)
  unfolding seek
  seek-Tracked n f = record { runs = λ w u. let v = L.draws b h s w u in ground (arith, v) }

  pub release-Tracked : {E : World → Type 0} → Contract W (I b (suc h) s) release (λ _. I b h s) E
  unfolding release
  release-Tracked = record { runs = λ w u. L.shuts b h s w u }

  pub close_written-Tracked : Contract W (I b (suc h) s) close_written (λ _. I b h s) (I b h s)
  unfolding close_written
  close_written-Tracked = record {
    runs = λ w u. let v = L.draws b h s _ (L.shuts b h s w u) in ground (arith, v);
  }

  pub open_dir-Tracked :
      (path : Bytes) → Contract W (I b h s) (open_dir path) (λ _. I b (suc h) s) (I b h s)
  unfolding open_dir
  open_dir-Tracked path = record {
    runs = λ w u.
        let v = L.draws b h s w u in
        let o = L.opens b h s (record w { faults = drawn w.faults }) v in ground (arith, v, o);
  }

  pub open_write-Tracked :
      (path : Bytes) (append : Bool)
      → L.Allowed (resolve path)
      → Contract W (I b h s) (open_write path append) (λ _. I b (suc h) s) (I b h s)
  unfolding open_write
  open_write-Tracked path append allowed = record {
    runs = λ w u. elim (Bool-cases (draw w.faults)) [
      | inl e ↦ rw (e, Settles) (L.draws b h s w u)
      | inr e ↦
          rw (e, Settles)
            (Settles-put W (I b (suc h) s) (I b h s) _ (L.draws b h s w u)
              (λ node. L.opens b h s _ (L.stores b h s _ _ node allowed (L.draws b h s w u))))
    ];
  }

  pub fwrite-Tracked :
      (path bytes : Bytes)
      → L.Allowed (resolve path)
      → Contract W (I b h s) (fwrite path bytes) (λ _. I b h s) (I b h s)
  unfolding fwrite
  fwrite-Tracked path bytes allowed = record {
    runs = λ w u. elim (Bool-cases (draw w.faults)) [
      | inl e ↦ rw (e, Settles) (L.draws b h s w u)
      | inr e ↦ rw (e, Settles) (L.stores b h s _ _ _ allowed (L.draws b h s w u))
    ];
  }

  pub remove-Tracked :
      {E : World → Type 0} (path : Bytes)
      → L.Allowed (resolve path)
      → Contract W (I b h s) (remove path) (λ _. I b h s) E
  unfolding remove
  remove-Tracked path allowed = record {
    runs = λ w u. elim (Bool-cases (draw w.faults)) [
      | inl e ↦ rw (e, Settles) (L.draws b h s w u)
      | inr e ↦ rw (e, Settles) (L.erases b h s _ _ allowed (L.draws b h s w u))
    ];
  }

-- What a file that is put at `dest` makes of the invariant.
pub record Publishing (I J : ℕ → ℕ → ℕ → World → Type 0) (dest : Key) : Type 0 where
  pub publishes :
      (b h s : ℕ) (w : World) (node : Node)
      → I b h s w
      → J b h s (record w { files = insert dest node w.files })
  pub prints :
      (b h s : ℕ) (w : World) (log : List Message) → J b h s w → J b h s (record w { log = log })

module _ {W : World → Type 0} {I J : ℕ → ℕ → ℕ → World → Type 0} (L : Tracking W I)
    {b h s : ℕ} where
  pub rename-Tracked :
      (old new : Bytes)
      → L.Allowed (resolve old)
      → Publishing I J (resolve new)
      → Contract W (I b h s) (rename old new) (λ _. J b h s) (I b h s)
  unfolding rename
  rename-Tracked old new allowed to = record {
    runs = λ w u. elim (Bool-cases (draw w.faults)) [
      | inl e ↦ rw (e, Settles) (L.draws b h s w u)
      | inr e ↦
          rw (e, Settles)
            (Settles-put W (J b h s) (I b h s) _ (L.draws b h s w u)
              (λ node. to.publishes b h s _ node (L.erases b h s _ _ allowed (L.draws b h s w u))))
    ];
  }

module _ {W : World → Type 0} {I : ℕ → ℕ → ℕ → World → Type 0} (L : Tracking W I) where
  pub free-Tracked :
      {b h s : ℕ} {E : World → Type 0} (p : Option Bytes)
      → Contract W (I (holding p b) h s) (free p) (λ _. I b h s) E
  unfolding free
  free-Tracked none = record { runs = λ w u. u }
  free-Tracked {b} {h} {s} (some bytes) = record { runs = λ w u. L.frees b h s w u }

  Settles-stop :
      {b h s : ℕ} (e : Ending) (w : World) (n : ℕ)
      → ending w.inbox ≡ e
      → I b h s w
      → Settles W
          (λ (_ : Bytes). I b h s)
          (I b h s)
          (stop e (record w { inbox = advance n w.inbox }))
  Settles-stop {b} {h} {s} open_ended w n e u = L.idles b h s w n e u
  Settles-stop {b} {h} {s} cut w n e u = L.logs b h s _ _ (L.reads b h s w n u)
  Settles-stop {b} {h} {s} shut w n e u = L.logs b h s _ _ (L.reads b h s w n u)

  pub read_exact-Tracked :
      {b h s : ℕ} (n : ℕ) → Contract W (I b h s) (read_exact n) (λ _. I b h s) (I b h s)
  read_exact-Tracked {b} {h} {s} n = record {
    runs = λ w u. elim (Bool-cases (leb n (length (stream w.inbox)))) [
      | inl enough ↦ rw (read_exact_full n w (leb→le _ _ enough)) (L.reads b h s w n u)
      | inr missing ↦
          rw (read_exact_short n w (ground arith)) (Settles-stop (ending w.inbox) w n refl u)
    ];
  }

  Settles-outcome :
      {b h s : ℕ} (done : Bool) (w : World)
      → I b h s w
      → Settles W (λ _. I b h s) (I b h s) (outcome done w)
  Settles-outcome true w u = u
  Settles-outcome {b} {h} {s} false w u = L.logs b h s w _ u

  pub write_all-Tracked :
      {b h s : ℕ} (p : Bytes) → Contract W (I b h s) (write_all p) (λ _. I b h s) (I b h s)
  write_all-Tracked {b} {h} {s} p = record {
    runs = λ w u.
        rw (write_all-outcome p w)
          (Settles-outcome (lasts (length p) w.rooms) _ (L.writes b h s w _ _ u));
  }
