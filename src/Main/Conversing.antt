-- ===== src/Main/Conversing.antt =====
-- The whole client around one exchange with a server: the connection, HELLO, the command, QUIT.
use retriever.Base.{ℕ, ◌+◌, ◌-◌, ◌≡◌, refl, ap, ◌∙◌, List, [], ◌∷◌, Option, none, some}
use retriever.Os.World.{
  World, Bytes, Attempt, no_socket, refused, connected, cannot_resolve, cannot_connect,
}
use retriever.Os.Program.{M, Run, ok, attempt, ◌>>=◌, ◌>>◌, pure, fail, say}
use retriever.Os.Files.{release}
use retriever.Os.Triples.{Settles, Contract, Contract-bind, Contract-then}
use retriever.Os.Triples.{Contract-attempt, Attempted}
use retriever.Os.Calm.{Never}
use retriever.Session.{do_hello, do_quit}
use retriever.Main.{Command, perform, try_addresses, connect, close, run_session, run_client}
use retriever.Main.{exit_success, exit_server, exit_conn}
use retriever.Main.{main, start, parse_command, parse_list, parse_get, parse_put}
use retriever.Main.Usage.{Usage, lists, gets, gets_as, puts, puts_as}

-- Some address takes the connection.
abbrev pub IsReachable : List Attempt → Type 0
IsReachable [] = ⊥
IsReachable (no_socket ∷ rest) = IsReachable rest
IsReachable (refused ∷ rest) = IsReachable rest
IsReachable (connected ∷ rest) = Unit

try_addresses_ok :
    (results : List Attempt) (w : World)
    → IsReachable results
    → try_addresses results w ≡ ok tt (record w { sockets = w.sockets + 1 })
unfolding try_addresses
try_addresses_ok [] w h = absurd h
try_addresses_ok (no_socket ∷ rest) w h = try_addresses_ok rest w h
try_addresses_ok (refused ∷ rest) w h = try_addresses_ok rest w h
try_addresses_ok (connected ∷ rest) w h = refl

-- The world with the connection open: the list of addresses is freed again.
abbrev pub linked : World → World
linked w = record w { sockets = w.sockets + 1; handles = w.handles + 1 - 1 }

connect_ok :
    (host port : Bytes) (results : List Attempt) (w : World)
    → w.addresses host port ≡ some results
    → IsReachable results
    → connect host port w ≡ ok tt (linked w)
unfolding connect release
connect_ok host port results w found h =
    ap
      (λ (o : Option (List Attempt)). elim o as (λ _. Run (Unit {0})) [
        | none ↦ (say (cannot_resolve host port) >> fail) w
        | some rs ↦
            (attempt (try_addresses rs) >>= λ fd. release >> (elim fd as (λ _. M (Unit {0})) [
              | none ↦ say (cannot_connect host port) >> fail
              | some _ ↦ pure tt
            ]))
              (record w { handles = w.handles + 1 })
      ])
      found
    ∙ rw (try_addresses_ok results (record w { handles = w.handles + 1 }) h, ◌>>=◌)

abbrev pub unlinked : World → World
unlinked w = record w { sockets = w.sockets - 1 }

-- What the exchange is: from `G` on the open connection to `R` of the exit status. HELLO is accepted;
-- where the command fails QUIT is not said.
pub record Conversation (W : World → Type 0) (c : Command) (G : World → Type 0)
    (R : ℕ → World → Type 0) : Type 1 where
  pub Greeted : World → Type 0
  pub Performed : World → Type 0
  pub Failed : World → Type 0
  pub connects : (w : World) → G w → G (linked w)
  pub greets : Contract W G do_hello (λ _. Greeted) Never
  pub performs : Contract W Greeted (perform c) (λ _. Performed) Failed
  pub quits : Contract W Performed do_quit (λ _. R exit_success) Never
  pub fails : (w : World) → Failed w → R exit_server w
  pub closes : (code : ℕ) (w : World) → R code w → R code (unlinked w)

module _ {W : World → Type 0} {c : Command} {G : World → Type 0} {R : ℕ → World → Type 0}
    (talk : Conversation W c G R) where
  after_command-converses :
      (rc : Option (Unit {0}))
      → Contract W
          (Attempted (λ (_ : Unit {0}). talk.Performed) talk.Failed rc)
          (elim rc as (λ _. M ℕ) [
            | none ↦ pure exit_server
            | some _ ↦ do_quit >> pure exit_success
          ])
          R
          Never
  after_command-converses none = record { runs = λ w p. talk.fails w p }
  after_command-converses (some _) = Contract-then talk.quits (record { runs = λ w p. p })

  after_greeting-converses :
      (greeted : Option (Unit {0}))
      → Contract W
          (Attempted (λ (_ : Unit {0}). talk.Greeted) Never greeted)
          (elim greeted as (λ _. M ℕ) [
            | none ↦ pure exit_conn
            | some _ ↦ attempt (perform c) >>= λ rc. elim rc as (λ _. M ℕ) [
              | none ↦ pure exit_server
              | some _ ↦ do_quit >> pure exit_success
            ]
          ])
          R
          Never
  after_greeting-converses none = record { runs = λ w p. absurd p }
  after_greeting-converses (some _) =
      Contract-bind (Contract-attempt talk.performs) after_command-converses

  run_session-converses : Contract W G (run_session c) R Never
  unfolding run_session
  run_session-converses = Contract-bind (Contract-attempt talk.greets) after_greeting-converses

  closed-converses : (code : ℕ) → Contract W (R code) (close >> pure code) R Never
  unfolding close
  closed-converses code = record { runs = λ w p. talk.closes code w p }

  -- The session, with the connection made and closed.
  pub run_client-converses :
      (host port : Bytes) (results : List Attempt) (w : World)
      → w.addresses host port ≡ some results
      → IsReachable results
      → G w
      → Settles W R Never (run_client host port c w)
  unfolding run_client
  run_client-converses host port results w found reachable p =
      rw (connect_ok host port results w found reachable, ◌>>=◌)
        ((Contract-bind run_session-converses closed-converses).runs (linked w) (talk.connects w p))

-- `argv[1]` and `argv[2]`
abbrev pub host_of : List Bytes → Bytes
host_of (program ∷ host ∷ rest) = host
host_of _ = []

abbrev pub port_of : List Bytes → Bytes
port_of (program ∷ host ∷ port ∷ rest) = port
port_of _ = []

main-Usage :
    (argv : List Bytes) (c : Command) (w : World)
    → Usage argv c
    → main argv w ≡ run_client (host_of argv) (port_of argv) c w
unfolding main start parse_command parse_list parse_get parse_put
main-Usage _ _ w (lists program host port) = refl
main-Usage _ _ w (gets program host port name) = refl
main-Usage _ _ w (gets_as program host port name other) = refl
main-Usage _ _ w (puts program host port name) = refl
main-Usage _ _ w (puts_as program host port name other) = refl

-- The same from the command line.
pub main-converses :
    {W : World → Type 0} {c : Command} {G : World → Type 0} {R : ℕ → World → Type 0}
    → Conversation W c G R
    → (argv : List Bytes) (results : List Attempt) (w : World) → Usage argv c
    → w.addresses (host_of argv) (port_of argv) ≡ some results
    → IsReachable results
    → G w
    → Settles W R Never (main argv w)
main-converses {c} talk argv results w usage found reachable p =
    rw (main-Usage argv c w usage)
      (run_client-converses talk (host_of argv) (port_of argv) results w found reachable p)
