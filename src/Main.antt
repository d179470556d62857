-- ===== src/Main.antt =====
-- c/main.c, the command line, and c/frame.c, `rtrv_connect`.
pub mod Connecting
pub mod Usage
pub mod Tracked
pub mod Resources
pub mod Exits
pub mod Untouched
pub mod Success
pub mod Delivery
pub mod Conversing
pub mod Telling
pub mod Uploads
pub mod Lists
pub mod Resumes
pub mod Fetches
pub mod Refused
pub mod Rejected
pub mod Mismatch
pub mod Transferred
use retriever.Base.{ℕ, ◌+◌, ◌-◌, List, [], ◌∷◌, Option, some, none, if◌then◌else◌, bytes_eq}
use retriever.Os.World.{Bytes, Attempt, no_socket, refused, connected, usage, unknown_command}
use retriever.Os.World.{cannot_resolve, cannot_connect}
use retriever.Os.Program.{M, ok, err, pure, fail, ◌>>=◌, ◌>>◌, attempt, say}
use retriever.Os.Files.{release}
use retriever.Session.{do_hello, do_list, do_quit}
use retriever.Transfer.Path.{basename_of}
use retriever.Transfer.Get.{do_get}
use retriever.Transfer.Put.{do_put}

-- `EXIT_…`
abbrev pub exit_success : ℕ
exit_success = 0

abbrev pub exit_server : ℕ
exit_server = 1

abbrev pub exit_local : ℕ
exit_local = 2

abbrev pub exit_conn : ℕ
exit_conn = 3

-- The loop over the addresses; a socket that does not connect is closed.
unfoldable pub try_addresses : List Attempt → M (Unit {0})
try_addresses [] w = err w
try_addresses (no_socket ∷ rest) w = try_addresses rest w
try_addresses (refused ∷ rest) w = try_addresses rest w
try_addresses (connected ∷ rest) w = ok tt (record w { sockets = w.sockets + 1 })

-- `rtrv_connect`; the address list counts as a handle until it is freed.
unfoldable pub connect : Bytes → Bytes → M (Unit {0})
connect host port w = elim (w.addresses host port) [
  | none ↦ (say (cannot_resolve host port) >> fail) w
  | some results ↦
      (attempt (try_addresses results) >>= λ fd.
      release >> (elim fd [ none ↦ say (cannot_connect host port) >> fail | some _ ↦ pure tt ]))
        (record w { handles = w.handles + 1 })
]

unfoldable pub close : M (Unit {0})
close w = ok tt (record w { sockets = w.sockets - 1 })

pub data Command : Type 0 where
  list : Command
  get : Bytes → Bytes → Command
  put : Bytes → Bytes → Command

-- What is wrong with a command line.
pub data Parsed : Type 0 where
  accepted : Command → Parsed
  misused unknown : Parsed

abbrev pub word_list : Bytes
word_list = b'l' ∷ b'i' ∷ b's' ∷ b't' ∷ []

abbrev pub word_get : Bytes
word_get = b'g' ∷ b'e' ∷ b't' ∷ []

abbrev pub word_put : Bytes
word_put = b'p' ∷ b'u' ∷ b't' ∷ []

abbrev pub word_o : Bytes
word_o = b'-' ∷ b'o' ∷ []

-- The arguments behind the command, `argv[4]` and on.
unfoldable pub parse_list : List Bytes → Parsed
parse_list [] = accepted list
parse_list (a ∷ rest) = misused

unfoldable pub parse_get : List Bytes → Parsed
parse_get (name ∷ []) = accepted (get name (basename_of name))
parse_get (name ∷ option ∷ other ∷ []) =
    if bytes_eq option word_o then accepted (get name other) else misused
parse_get _ = misused

unfoldable pub parse_put : List Bytes → Parsed
parse_put (name ∷ []) = accepted (put name (basename_of name))
parse_put (name ∷ other ∷ []) = accepted (put name other)
parse_put _ = misused

unfoldable pub parse_command : Bytes → List Bytes → Parsed
parse_command command arguments =
    if bytes_eq command word_list
    then parse_list arguments
    else if bytes_eq command word_get
    then parse_get arguments
    else if bytes_eq command word_put
    then parse_put arguments
    else unknown

unfoldable pub perform : Command → M (Unit {0})
perform list = do_list
perform (get name other) = do_get name other
perform (put name other) = do_put name other

-- The exit status of a run of `m`, once it has returned.
abbrev status : ℕ → Option (Unit {0}) → ℕ
status failed none = failed
status failed (some _) = exit_success

-- The session on an open connection.
unfoldable pub run_session : Command → M ℕ
run_session command = attempt do_hello >>= λ greeted. elim greeted [
  | none ↦ pure exit_conn
  | some _ ↦ attempt (perform command) >>= λ rc. elim rc [
    | none ↦ pure exit_server
    | some _ ↦ do_quit >> pure exit_success
  ]
]

unfoldable pub run_client : Bytes → Bytes → Command → M ℕ
run_client host port command = attempt (connect host port) >>= λ fd. elim fd [
  | none ↦ pure exit_conn
  | some _ ↦ run_session command >>= λ code. close >> pure code
]

unfoldable pub start : Bytes → Bytes → Bytes → Bytes → List Bytes → M ℕ
start program host port command arguments = elim (parse_command command arguments) [
  | misused ↦ say (usage program) >> pure exit_local
  | unknown ↦ say (unknown_command command) >> (say (usage program) >> pure exit_local)
  | accepted c ↦ run_client host port c
]

-- `main`; `argv[0]` is the program.
unfoldable pub main : List Bytes → M ℕ
main (program ∷ host ∷ port ∷ command ∷ arguments) = start program host port command arguments
main [] = say (usage []) >> pure exit_local
main (program ∷ _) = say (usage program) >> pure exit_local
