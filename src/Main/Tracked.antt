-- ===== src/Main/Tracked.antt =====
-- The whole client and the counts: at the exit nothing is left open or allocated.
use retriever.Base.{ℕ, suc, refl}
use retriever.Base.{Option, some, none, List, [], ◌∷◌}
use retriever.Os.World.{World, Bytes}
use retriever.Os.World.{usage, unknown_command}
use retriever.Os.Program.{M, pure, ◌>>=◌, ◌>>◌, say, attempt}
use retriever.Os.Triples.{Contract, Attempted, Contract-bind, Contract-then, Contract-pure}
use retriever.Os.Triples.{Contract-attempt, Contract-attempt_same}
use retriever.Os.Tracking.{Tracking}
use retriever.Os.World.{World}
use retriever.Os.Tracking.{say-Tracked}
use retriever.Session.{do_quit}
use retriever.Transfer.GetTracked.{do_get-Tracked}
use retriever.Transfer.PutTracked.{do_put-Tracked}
use retriever.Base.{◌≡◌, ◌⊎◌, inl, inr}
use retriever.Os.Triples.{Contract-given, Contract-weaken}
use retriever.Main.{exit_success, exit_server, exit_conn, exit_local}
use retriever.Main.{close, Command, Parsed, accepted, misused, unknown}
use retriever.Main.{parse_command, perform, run_session, run_client, start, main}
use retriever.Session.Tracked.{do_hello-Tracked, do_list-Tracked, do_quit-Tracked}
use retriever.Os.Files.{resolve}
use retriever.Os.Tracking.{Publishing}
use retriever.Transfer.Get.Beside.{IsBeside}
use retriever.Main.Usage.{Usage, Reads, parse_command-Reads}
use retriever.Main.Connecting.{close-Tracked, connect-Tracked}

-- The statuses of a client whose command line is accepted.
abbrev pub IsSessionStatus : ℕ → Type 0
IsSessionStatus code = (code ≡ exit_success) ⊎ ((code ≡ exit_server) ⊎ (code ≡ exit_conn))

-- Such a status, and the invariant.
abbrev pub Exits : (ℕ → ℕ → ℕ → World → Type 0) → ℕ → ℕ → ℕ → ℕ → World → Type 0
Exits I b h s code w = IsSessionStatus code × I b h s w

module _ {W : World → Type 0} {I : ℕ → ℕ → ℕ → World → Type 0} (L : Tracking W I) where
  -- The places that a command changes are allowed.
  abbrev pub MayDo : Command → Type 0
  MayDo Command.list = Unit {0}
  MayDo (Command.get name dest) =
      L.Allowed (resolve dest) × ((p : Bytes) → IsBeside dest p → L.Allowed (resolve p))
  MayDo (Command.put name other) = Unit {0}

  replaced : (dest : Bytes) → L.Allowed (resolve dest) → Publishing I I (resolve dest)
  replaced dest allowed = record {
    publishes = λ b h s w node u. L.stores b h s w (resolve dest) node allowed u;
    prints = λ b h s w log u. L.logs b h s w log u;
  }

  module _ {b h s : ℕ} where
    pub perform-Tracked :
        (c : Command) → MayDo c → Contract W (I b h s) (perform c) (λ _. I b h s) (I b h s)
    unfolding perform
    perform-Tracked Command.list may = do_list-Tracked L
    perform-Tracked (Command.get name dest) (allowed, beside) =
        do_get-Tracked L dest beside (replaced dest allowed) name
    perform-Tracked (Command.put name other) may = do_put-Tracked L name other

    exit-Exits :
        {E : World → Type 0} (code : ℕ)
        → IsSessionStatus code
        → Contract W (I b h s) (pure code) (Exits I b h s) E
    exit-Exits code status = record { runs = λ w u. (status, u) }

    finish-Exits :
        {E : World → Type 0} (rc : Option (Unit {0}))
        → Contract W
            (I b h s)
            (elim rc as (λ _. M ℕ) [
              | none ↦ pure exit_server
              | some _ ↦ do_quit >> pure exit_success
            ])
            (Exits I b h s)
            E
    finish-Exits none = exit-Exits exit_server (inr (inl refl))
    finish-Exits (some _) = Contract-then (do_quit-Tracked L) (exit-Exits exit_success (inl refl))

    greeted-Exits :
        {E : World → Type 0} (command : Command) (may : MayDo command) (greeted : Option (Unit {0}))
        → Contract W
            (I b h s)
            (elim greeted as (λ _. M ℕ) [
              | none ↦ pure exit_conn
              | some _ ↦ attempt (perform command) >>= λ rc. elim rc as (λ _. M ℕ) [
                | none ↦ pure exit_server
                | some _ ↦ do_quit >> pure exit_success
              ]
            ])
            (Exits I b h s)
            E
    greeted-Exits command may none = exit-Exits exit_conn (inr (inr refl))
    greeted-Exits command may (some _) =
        Contract-bind (Contract-attempt_same (perform-Tracked command may)) finish-Exits

    run_session-Exits :
        {E : World → Type 0} (command : Command)
        → MayDo command
        → Contract W (I b h s) (run_session command) (Exits I b h s) E
    unfolding run_session
    run_session-Exits command may =
        Contract-bind (Contract-attempt_same (do_hello-Tracked L)) (greeted-Exits command may)

  module _ {b h s : ℕ} {E : World → Type 0} where
    closed-Exits :
        (code : ℕ) → Contract W (Exits I b h (suc s) code) (close >> pure code) (Exits I b h s) E
    closed-Exits code =
        Contract-given
          (λ status. Contract-then (close-Tracked L) (record { runs = λ w u. (status, u) }))

    in_session-Exits :
        (command : Command) (may : MayDo command) (fd : Option (Unit {0}))
        → Contract W
            (Attempted (λ (_ : Unit {0}). I b h (suc s)) (I b h s) fd)
            (elim fd as (λ _. M ℕ) [
              | none ↦ pure exit_conn
              | some _ ↦ run_session command >>= λ code. close >> pure code
            ])
            (Exits I b h s)
            E
    in_session-Exits command may none = record { runs = λ w u. (inr (inr refl), u) }
    in_session-Exits command may (some _) =
        Contract-bind (run_session-Exits command may) closed-Exits

    pub run_client-Exits :
        (host port : Bytes) (command : Command)
        → MayDo command
        → Contract W (I b h s) (run_client host port command) (Exits I b h s) E
    unfolding run_client
    run_client-Exits host port command may =
        Contract-bind (Contract-attempt (connect-Tracked L host port))
          (in_session-Exits command may)

    parsed-Tracked :
        (argv : List Bytes) (program host port command : Bytes) (p : Parsed)
        → Reads argv p
        → ((c : Command) → Usage argv c → MayDo c)
        → Contract W
            (I b h s)
            (elim p as (λ _. M ℕ) [
              | misused ↦ say (usage program) >> pure exit_local
              | unknown ↦ say (unknown_command command) >> (say (usage program) >> pure exit_local)
              | accepted c ↦ run_client host port c
            ])
            (λ _. I b h s)
            E
    parsed-Tracked argv program host port command misused reads may =
        Contract-then (say-Tracked L) Contract-pure
    parsed-Tracked argv program host port command unknown reads may =
        Contract-then (say-Tracked L) (Contract-then (say-Tracked L) Contract-pure)
    parsed-Tracked argv program host port command (accepted c) reads may =
        Contract-weaken (run_client-Exits host port c (may c reads)) (λ code w (status, u). u)

    pub main-Tracked :
        (argv : List Bytes)
        → ((c : Command) → Usage argv c → MayDo c)
        → Contract W (I b h s) (main argv) (λ _. I b h s) E
    unfolding main start
    main-Tracked [] may = Contract-then (say-Tracked L) Contract-pure
    main-Tracked (program ∷ []) may = Contract-then (say-Tracked L) Contract-pure
    main-Tracked (program ∷ host ∷ []) may = Contract-then (say-Tracked L) Contract-pure
    main-Tracked (program ∷ host ∷ port ∷ []) may = Contract-then (say-Tracked L) Contract-pure
    main-Tracked (program ∷ host ∷ port ∷ command ∷ arguments) may =
        parsed-Tracked (program ∷ host ∷ port ∷ command ∷ arguments) program host port command
          (parse_command command arguments)
          (parse_command-Reads program host port command arguments) may
