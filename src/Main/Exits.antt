-- ===== src/Main/Exits.antt =====
-- `main` in c/main.c: which command lines it accepts, and its exit status.
use retriever.Base.{ℕ, ◌≡◌, refl, ◌⊎◌, inl, inr, List, [], ◌∷◌}
use retriever.Os.World.{World, Bytes, Message, usage, unknown_command}
use retriever.Os.Program.{M, Run, ok, err, waits, pure, ◌>>◌, say}
use retriever.Os.Triples.{Settles, Ends, Contract-weaken}
use retriever.Os.Resources.{Waits}
use retriever.Socket.Stream.{Ending, open_ended, ending}
use retriever.Main.{Command, Parsed, accepted, misused, unknown, exit_local}
use retriever.Main.{parse_command, run_client, start, main}
use retriever.Main.Tracked.{IsSessionStatus, run_client-Exits}
use retriever.Main.Usage.{Usage, IsMisuse, Reads, Usage-Accepts, parse_command-Reads}
use retriever.Main.Resources.{any_command}
use retriever.Os.Resources.{counting}

-- How `main` ends: with the status of a session where the command line is a usage, and with status
-- 2 and nothing done but messages where it is none.
abbrev pub Exit : List Bytes → World → ℕ → World → Type 0
Exit argv w code w' =
    ((c : Command) × (Usage argv c × IsSessionStatus code))
    ⊎ (IsMisuse argv × ((code ≡ exit_local) × (w' ≡ record w { log = w'.log })))

refused_lem :
    {argv : List Bytes} (w : World) (log : List Message)
    → IsMisuse argv
    → Exit argv w exit_local (record w { log = log })
refused_lem w log misuse = inr (misuse, (refl, refl))

module _ (program host port command : Bytes) (arguments : List Bytes) (w : World) where
  abbrev argv : List Bytes
  argv = program ∷ host ∷ port ∷ command ∷ arguments

  start-Exit :
      (p : Parsed)
      → parse_command command arguments ≡ p
      → Reads argv p
      → Settles
          (Waits (ending w.inbox))
          (Exit argv w)
          (λ _. ⊥)
          ((elim p as (λ _. M ℕ) [
            | misused ↦ say (usage program) >> pure exit_local
            | unknown ↦ say (unknown_command command) >> (say (usage program) >> pure exit_local)
            | accepted c ↦ run_client host port c
          ])
            w)
  start-Exit misused e reads = refused_lem w _ (λ c u. cc (e, Usage-Accepts argv c u))
  start-Exit unknown e reads = refused_lem w _ (λ c u. cc (e, Usage-Accepts argv c u))
  start-Exit (accepted c) e reads =
      (Contract-weaken
          (run_client-Exits (counting (ending w.inbox)) host port c
            (any_command (ending w.inbox) c))
          (λ code w' (status, u). inl (c, (reads, status)))).runs
        w (record { ends = refl; blocks = refl; opens = refl; connections = refl })

main-Exit :
    (argv : List Bytes) (w : World)
    → Settles (Waits (ending w.inbox)) (Exit argv w) (λ _. ⊥) (main argv w)
unfolding main start
main-Exit [] w = refused_lem w _ (λ c u. Usage-Accepts [] c u)
main-Exit (program ∷ []) w = refused_lem w _ (λ c u. Usage-Accepts (program ∷ []) c u)
main-Exit (program ∷ host ∷ []) w = refused_lem w _ (λ c u. Usage-Accepts (program ∷ host ∷ []) c u)
main-Exit (program ∷ host ∷ port ∷ []) w =
    refused_lem w _ (λ c u. Usage-Accepts (program ∷ host ∷ port ∷ []) c u)
main-Exit (program ∷ host ∷ port ∷ command ∷ arguments) w =
    start-Exit program host port command arguments w (parse_command command arguments) refl
      (parse_command-Reads program host port command arguments)

pub Settles-ends :
    {A : Type 0} (e : Ending) (Q : A → World → Type 0) (E : World → Type 0) (r : Run A)
    → ¬ (e ≡ open_ended)
    → Settles (Waits e) Q E r
    → Ends Q E r
Settles-ends e Q E (ok a w) finite l = l
Settles-ends e Q E (err w) finite l = l
Settles-ends e Q E (waits w) finite l = absurd (finite l)

-- Where the connection ends some time, whatever comes before, and each `send` comes back, in a process
-- that ignores SIGPIPE: `main` ends, and its exit status is that of the usage: 0, 1 or 3 where the
-- command line is one that the usage message shows, and 2 with nothing done but messages where it is
-- none.
pub main-ends :
    (argv : List Bytes) (w : World)
    → ¬ (ending w.inbox ≡ open_ended)
    → Ends (Exit argv w) (λ _. ⊥) (main argv w)
main-ends argv w finite =
    Settles-ends (ending w.inbox) (Exit argv w) (λ _. ⊥) (main argv w) finite (main-Exit argv w)
