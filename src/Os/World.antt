-- ===== src/Os/World.antt =====
-- The state of everything around the client, as the C library and the kernel keep it.
use retriever.Base.{ℕ, Bool, List, Option}

-- C strings and byte arrays: a string is the bytes before its terminating zero.
abbrev pub Bytes : Type 0
Bytes = List ℕ

-- What a `recv` meets: bytes (one at least) that the kernel has buffered, a signal, an error of the
-- connection, or the peer's close. The last two stay.
pub data Arrival : Type 0 where
  segment : ℕ → Bytes → Arrival
  signal broken closed : Arrival

-- What a `send` meets: room for so many bytes and one more, a signal, or an error. One that blocks for
-- ever is not among them.
pub data Room : Type 0 where
  takes : ℕ → Room
  signal broken : Room

-- What `rtrv_connect` meets at one address.
pub data Attempt : Type 0 where
  no_socket refused connected : Attempt

-- A file with its contents, or something else (a directory, a device) with the size `stat` gives.
pub data Node : Type 0 where
  regular : Bytes → Node
  special : ℕ → Node

-- A place in the file system: the names on the way to it.
abbrev pub Key : Type 0
Key = List Bytes

-- Everything the client and the hash harness print, on either stream.
pub data Message : Type 0 where
  read_failed closed_early write_failed : Message
  bad_magic out_of_memory : Message
  bad_version : ℕ → Message
  oversized : ℕ → Message
  malformed_error wrong_message_length : Message
  server_error : Bytes → ℕ → Message
  unexpected_reply : ℕ → Message
  listed : Bytes → Message
  path_too_long : Bytes → Message
  already_exists : Bytes → Message
  filename_too_long oversized_error : Message
  resuming : Bytes → ℕ → Message
  cannot_write : Bytes → Message
  interrupted : Message
  cannot_write_to cannot_flush cannot_verify : Bytes → Message
  hash_mismatch : Message
  cannot_rename : Bytes → Bytes → Message
  downloaded : Bytes → ℕ → Bytes → Message
  not_found_locally cannot_read cannot_open cannot_seek changed_size : Bytes → Message
  resume_past_end : Message
  resuming_upload : ℕ → Message
  uploaded : Bytes → ℕ → Bytes → Message
  cannot_resolve cannot_connect : Bytes → Bytes → Message
  usage unknown_command : Bytes → Message
  stdin_failed : Message
  hashed : Bytes → Message

pub record World : Type 0 where
  -- the socket: what each `recv` and each `send` meets, and the bytes sent so far; past the end of
  -- `inbox` a `recv` waits, past the end of `rooms` a `send` takes all
  pub inbox : List Arrival
  pub rooms : List Room
  pub sent : Bytes
  -- what `getaddrinfo` finds for a host and a port
  pub addresses : Bytes → Bytes → Option (List Attempt)
  -- sockets that are open
  pub sockets : ℕ
  -- the file system, each place once
  pub files : List (Key × Node)
  -- open streams, directories and address lists
  pub handles : ℕ
  -- what local arrays hold before they are written
  pub stack : Bytes
  -- blocks from `malloc` that are not freed yet
  pub heap : ℕ
  -- whether each fallible call of the C library fails; past the end none does
  pub faults : List Bool
  pub log : List Message
