-- ===== src/Main/Connecting.antt =====
-- `rtrv_connect` and `close` under an invariant.
use retriever.Base.{ℕ, suc, ◌+◌}
use retriever.Base.{Option, some, none, List, [], ◌∷◌}
use retriever.Os.World.{
  World, Bytes, Attempt, no_socket, refused, connected, cannot_connect, cannot_resolve,
}
use retriever.Os.Program.{M, Run, pure, fail, ◌>>=◌, ◌>>◌, say, attempt}
use retriever.Os.Triples.{Contract, Settles, Attempted, Contract-bind, Contract-then, Contract-pure}
use retriever.Os.Triples.{Contract-fail, Contract-attempt}
use retriever.Os.Tracking.{Tracking}
use retriever.Os.World.{World}
use retriever.Os.Tracking.{say-Tracked, release-Tracked}
use retriever.Os.Files.{release}
use retriever.Main.{try_addresses, connect, close}

module _ {W : World → Type 0} {I : ℕ → ℕ → ℕ → World → Type 0} (L : Tracking W I) where
  module _ {b h s : ℕ} where
    pub close-Tracked : {E : World → Type 0} → Contract W (I b h (suc s)) close (λ _. I b h s) E
    unfolding close
    close-Tracked = record { runs = λ w u. L.disconnects b h s w u }

    -- A connection that is made is open, and a failure leaves none.
    try_addresses-Tracked :
        (results : List Attempt)
        → Contract W (I b h s) (try_addresses results) (λ _. I b h (suc s)) (I b h s)
    unfolding try_addresses
    try_addresses-Tracked [] = record { runs = λ w u. u }
    try_addresses-Tracked (no_socket ∷ rest) = try_addresses-Tracked rest
    try_addresses-Tracked (refused ∷ rest) = try_addresses-Tracked rest
    try_addresses-Tracked (connected ∷ rest) = record { runs = λ w u. L.connects b h s w u }

  module _ {b h s : ℕ} where
    connected-Tracked :
        (host port : Bytes) (fd : Option (Unit {0}))
        → Contract W
            (Attempted (λ (_ : Unit {0}). I b (suc h) (suc s)) (I b (suc h) s) fd)
            (release >> (elim fd as (λ _. M (Unit {0})) [
              | none ↦ say (cannot_connect host port) >> fail
              | some _ ↦ pure tt
            ]))
            (λ _. I b h (suc s))
            (I b h s)
    connected-Tracked host port none =
        Contract-then (release-Tracked L) (Contract-then (say-Tracked L) Contract-fail)
    connected-Tracked host port (some _) = Contract-then (release-Tracked L) Contract-pure

    resolved-Tracked :
        (host port : Bytes) (results : List Attempt)
        → Contract W
            (I b (suc h) s)
            (attempt (try_addresses results) >>= λ fd. release >> (elim fd as (λ _. M (Unit {0})) [
              | none ↦ say (cannot_connect host port) >> fail
              | some _ ↦ pure tt
            ]))
            (λ _. I b h (suc s))
            (I b h s)
    resolved-Tracked host port results =
        Contract-bind (Contract-attempt (try_addresses-Tracked results))
          (connected-Tracked host port)

    Settles-resolved :
        (host port : Bytes) (found : Option (List Attempt)) (w : World)
        → I b h s w
        → Settles W
            (λ _. I b h (suc s))
            (I b h s)
            (elim found as (λ _. Run (Unit {0})) [
              | none ↦ (say (cannot_resolve host port) >> fail) w
              | some results ↦
                  (attempt (try_addresses results) >>= λ fd.
                  release >> (elim fd as (λ _. M (Unit {0})) [
                    | none ↦ say (cannot_connect host port) >> fail
                    | some _ ↦ pure tt
                  ]))
                    (record w { handles = w.handles + 1 })
            ])
    Settles-resolved host port none w u = L.logs b h s w _ u
    Settles-resolved host port (some results) w u =
        (resolved-Tracked host port results).runs _ (L.opens b h s w u)

    pub connect-Tracked :
        (host port : Bytes)
        → Contract W (I b h s) (connect host port) (λ _. I b h (suc s)) (I b h s)
    unfolding connect
    connect-Tracked host port = record {
      runs = λ w u. Settles-resolved host port (w.addresses host port) w u;
    }
