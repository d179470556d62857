-- ===== src/Lib.antt =====
-- retriever, the C client of the file transfer protocol v3 (c/): the model and its theorems.
--
-- The program connects to a server, says HELLO, performs one command (LIST, GET or PUT) and says
-- QUIT. Every message is a frame of docs/PROTOCOL.md, "Version 3". GET keeps what it has in a partial
-- file whose name carries the first eight bytes of the file's SHA-256, and publishes a file under its
-- name only after its hash is checked.
--
-- Which file models which part:
--   Base           tests on numbers, C arrays as lists, the bit operators, `memcpy`
--   Os             what is around the client: `World` is its whole state, `Program` the monad of
--                  functions that return 0 or -1, `Heap` malloc and free, `Files` stdio and the file
--                  system; `Triples` (Basic and Derived) are the rules for what a call needs
--                  and leaves, where it returns, fails or waits
--   Packing        c/frame.c, rtrv_put_u16 to rtrv_get_u64
--   Socket         c/frame.c, rtrv_read_exact and rtrv_write_all
--   Frame          c/frame.c, rtrv_write_frame to rtrv_report_error
--   Sha256         c/sha256.c: Block is sha256_block, Context is init, update and final, Hex and File
--                  the two helpers, Harness is c/sha256_main.c; Padding is the specification from
--                  FIPS 180-4, Shape says that a digest is made of bytes
--   Transfer       c/transfer.c: Path and Partial the names of partial files, Get and Put the two
--                  transfers
--   Session, Main  c/main.c: the exchanges, the command line and rtrv_connect
--   Os.Tracking has the interface `Tracking`: an invariant that is indexed by what is in use, with
--   a law for each kind of change of the world. Frame.Tracked, Session.Tracked, Transfer.Tracked
--   (with GetTracked and PutTracked), Main.Connecting and Main.Tracked follow any such invariant
--   through every function. Os.Resources is the instance that counts, which Main.Resources and
--   Main.Exits use; Os.Untouched is the instance for what stands at one place, which
--   Transfer.Get.Untouched and Main.Untouched use; Os.Paths, Transfer.Get.Beside and Searched say
--   where partial files stand, and Transfer.Get.Apart where they cannot. Os.Calm is the instance for a
--   world without faults, which
--   Transfer.Get.Replied, Completing, Success and Delivery use to follow a GET that succeeds, and
--   Session.Greeting, Main.Success and Main.Delivery the session around it.
--   Conversation   the exchanges again, against a server that keeps the protocol, with all that is
--                  sent and printed: Frames has the state that is followed (`Talking`), Hello is HELLO
--                  and QUIT, List is LIST. Local is what a path is asked for; Offset and Upload are the
--                  other steps of Put, and Search, Download, Publishing, Saving and Asked those of a
--                  GET. Finish, Get and Mismatch are a GET that goes on from a partial file, Fresh one
--                  that begins. Errors is what is made of an ERROR frame, AnySearch a search of which
--                  nothing is known, Refused each command that is answered with an ERROR frame, and
--                  Rejected an upload that is
--   Main.Conversing has the interface `Conversation`: what HELLO, a command and QUIT leave, from
--   which it follows what `main` leaves. Main.Telling is its instance for `Talking`, for a command that
--   succeeds and for one that fails; Main.Fetches, Main.Resumes, Main.Uploads and Main.Lists use the
--   first, Main.Refused, Main.Mismatch and Main.Rejected the second. Main.Delivery and
--   Main.Transferred fill it themselves.
--   Main.Usage compares the command line with the usage message. Transfer.Get.Incoming, Opening,
--   Appending, Saving and Integrity follow what GET reads and what it stores, Interrupted what is
--   stored where a download stops, Transfer.Put.Sending, Reading, Upload and Integrity what PUT reads
--   and sends; Transfer.Requests has the layouts of the two requests, Transfer.Token the hexadecimal
--   token in a name and Transfer.Resuming the search for it; Session.Listing and Session.Names follow
--   the walk over a list of names.
--   Tests          runs and instances
--
-- How it is modelled. Numbers are natural numbers, with each wrap of a fixed width written out. A
-- pointer into a buffer is the buffer with an offset, a string the bytes before its terminating zero,
-- and a local array starts with arbitrary contents (the field `stack`). A call returns, fails with -1
-- or waits for ever (`Run`). The connection is a script: what each `recv` and each `send` meets, in
-- any split into segments and with signals between them; past the end of the script a `recv` waits and
-- a `send` takes everything. The field `faults` says of each fallible call of the C library whether it
-- fails, so every error path can be taken. Files are a list from places to contents, with paths read
-- as the kernel reads them. `heap`, `handles` and `sockets` count what is held and not yet given back.
--
-- Bounds and fuel. A read loop has a round for each arrival of the script and two more, a write loop
-- for each room and two more: each round that does not end the loop takes an entry away. The loop over
-- whole blocks has a round for each byte, the loop of padding zeros 64 rounds, the loops over files and
-- over bodies a round for each byte that remains.
--
-- Not modelled: a `send` that blocks for ever because the peer does not read, and the signal SIGPIPE
-- that a `send` on a broken connection raises, which ends the C client without a message; in the model
-- every `send` takes some bytes, is interrupted or fails. Where a theorem says that a function ends or
-- what it returns, this is meant of runs in which each `send` comes back and SIGPIPE is ignored. Nor are
-- `..` and links in paths, changes of files by other programs during a run, a write error that stores
-- a part of what it was given, and the texts of messages, whose data is kept.
-- retriever/ and tests/ are the server and the tests in Python.
pub mod Base
pub mod Packing
pub mod Sha256
pub mod Os
pub mod Socket
pub mod Frame
pub mod Conversation
pub mod Transfer
pub mod Session
pub mod Main
mod Tests
