-- ===== src/Transfer/Get/Integrity.antt =====
-- What `rtrv_do_get` leaves at the destination.
use retriever.Base.{ℕ, ◌≤◌, ◌≡◌, subst, arith, take, drop, ltb, Option, some, none}
use retriever.Base.{◌++◌, length, List}
use retriever.Os.World.{World, Bytes, Key, Node}
use retriever.Base.{true}
use retriever.Os.Program.{M}
use retriever.Os.Triples.{Contract, Contract-also, Contract-fails, Contract-weaken}
use retriever.Os.Untouched.{Frozen, frozen}
use retriever.Os.Tracking.{read_exact-Tracked}
use retriever.Socket.{read_exact}
use retriever.Frame.Tracked.{write_frame-Tracked, read_frame_header-Tracked}
use retriever.Transfer.Tracked.{file_exists-Tracked, find_partial-Tracked}
use retriever.Transfer.GetTracked.{check_get_reply-Tracked}
use retriever.Os.Program.{◌>>=◌}
use retriever.Os.Files.{resolve, remove, close_written}
use retriever.Os.Triples.{Triple, Anything, Contract-bind, Contract-then}
use retriever.Os.Triples.{Contract-pure, Contract-if, Contract-on_error, Contract-given}
use retriever.Os.Triples.{Contract-refuse, Contract-said, Contract-attempt_same}
use retriever.Sha256.Padding.{sha256}
use retriever.Frame.{header_size}
use retriever.Transfer.Path.{max_name, path_max, partial_name}
use retriever.Transfer.Get.{Resume, Meta, parse_meta, get_meta_size, settle_partial, body_size}
use retriever.Transfer.Get.{download, request_get, do_get, forget, send_get, resume_of}
use retriever.Transfer.Get.Incoming.{Comes, read_exact-ReadOf, write_frame-Comes}
use retriever.Transfer.Get.Incoming.{check_get_reply-Comes}
use retriever.Transfer.Get.Incoming.{read_frame_header-Comes}
use retriever.Socket.Stream.{stream}
use retriever.Os.Program.{Run, ok}
use retriever.Os.Triples.{Lands}
use retriever.Base.{refl}
use retriever.Transfer.Get.Appending.{Holds, download_loop-Extended}
use retriever.Transfer.Get.Opening.{prior, open_write-Holds}
use retriever.Transfer.Get.Saving.{sha256_file-Holds, publish-Holds}
use retriever.Transfer.Get.Searching.{
  IsPartialOf, partial_name-IsPartialOf, file_exists-Comes, find_partial-Comes,
}

-- What the file of a download begins with: where the server goes on from an offset, what the partial
-- file held.
abbrev pub begun : List (Key × Node) → Bytes → Meta → Bytes
begun files partial m = prior files (resolve partial) (ltb 0 m.start)

-- The destination holds the body that came, behind what the partial file for the announced hash held
-- in `files` where the server goes on from an offset, and has the announced hash.
abbrev pub Got : Bytes → List (Key × Node) → Meta → Bytes → World → Type 0
Got dest files m body w =
    (partial : Bytes) × ((IsPartialOf dest m.digest partial × (body_size m ≤ length body))
      × ((m.digest ≡ sha256 (begun files partial m ++ take (body_size m) body))
          × Holds (resolve dest) (begun files partial m ++ take (body_size m) body) w))

-- The bytes to come, where no file has changed.
abbrev Unread : Bytes → List (Key × Node) → World → Type 0
Unread bytes files w = Comes bytes w × Frozen files w

-- A step of which both is known.
both :
    {A : Type 0} {P : World → Type 0} {Q : A → World → Type 0} {m : M A} {files : List (Key × Node)}
    → Triple P m Q Anything
    → Contract Anything (Frozen files) m (λ _. Frozen files) (Frozen files)
    → Triple (λ w. P w × Frozen files w) m (λ a w. Q a w × Frozen files w) Anything
both t u = Contract-fails (Contract-also t u) (λ w _. tt)

close_written-Holds :
    (k : List Bytes) (c : Bytes) → Triple (Holds k c) close_written (λ _. Holds k c) Anything
unfolding close_written
close_written-Holds k c = record { runs = λ w u. ground (arith, u) }

module _ {bytes : Bytes} where
  forget-Comes :
      (existing : Option Bytes) → Triple (Comes bytes) (forget existing) (λ _. Comes bytes) Anything
  unfolding remove
  forget-Comes none = Contract-pure
  forget-Comes (some path) = record { runs = λ w u. ground (arith, u) }

  -- A partial file that is gone on from is left alone.
  settle_partial-Frozen :
      (name : Bytes) (resume : Resume) (start : ℕ) (files : List (Key × Node))
      → Triple
          (Unread bytes files)
          (settle_partial name resume start)
          (λ _ w. Comes bytes w × (ltb 0 start ≡ true → Frozen files w))
          Anything
  unfolding settle_partial
  settle_partial-Frozen name resume start files =
      Contract-if (ltb 0 start) (λ _. record { runs = λ w (comes, same). (comes, λ _. same) })
        (λ early. record {
          runs = λ w (comes, _).
              (Contract-weaken (forget-Comes resume.existing)
                  (λ _ w' comes'. (comes', λ late. absurd cc))).runs
                w comes;
        })

  download-Got :
      (name dest : Bytes) (resume : Resume) (m : Meta) (partial : Bytes) (files : List (Key × Node))
      → IsPartialOf dest m.digest partial
      → Triple
          (Unread bytes files)
          (download name dest resume m partial)
          (λ _. Got dest files m bytes)
          Anything
  unfolding download
  download-Got name dest resume m partial files at =
      Contract-then (settle_partial-Frozen name resume m.start files) (
        Contract-then
          (Contract-on_error (open_write-Holds partial (ltb 0 m.start) bytes files) Contract-said)
          (Contract-then
            (download_loop-Extended (body_size m) (body_size m) partial (begun files partial m)
              bytes (omega arith))
            (Contract-given (λ enough.
              Contract-then (Contract-on_error (close_written-Holds _ _) Contract-said) (
                Contract-bind (Contract-on_error (sha256_file-Holds partial _) Contract-said)
                  (λ actual.
                    Contract-then (publish-Holds partial dest actual m.digest _)
                      (record { runs = λ w p. (partial, ((at, enough), p)) })))))))

-- What is read behind the reply's header.
abbrev pub meta_bytes : Bytes → Bytes
meta_bytes bytes = take get_meta_size (drop header_size bytes)

abbrev pub body_bytes : Bytes → Bytes
body_bytes bytes = drop get_meta_size (drop header_size bytes)

named-Got :
    (name dest : Bytes) (resume : Resume) (body meta announced : Bytes) (files : List (Key × Node))
    → meta ≡ announced
    → Triple
        (Unread body files)
        (partial_name dest (parse_meta meta).digest path_max >>= λ partial.
          download name dest resume (parse_meta meta) partial)
        (λ _. Got dest files (parse_meta announced) body)
        Anything
named-Got name dest resume body meta announced files e =
    subst
      (λ (a : Bytes).
        Triple (Unread body files)
          (partial_name dest (parse_meta meta).digest path_max >>= λ partial.
            download name dest resume (parse_meta meta) partial)
          (λ _. Got dest files (parse_meta a) body) Anything)
      e
      (Contract-bind (partial_name-IsPartialOf dest (parse_meta meta).digest path_max) (λ partial.
        Contract-given (λ at. download-Got name dest resume (parse_meta meta) partial files at)))

-- A read, with what was read put first.
read_meta-Unread :
    (bytes : Bytes) (files : List (Key × Node))
    → Triple
        (Unread bytes files)
        (read_exact get_meta_size)
        (λ got w. (got ≡ take get_meta_size bytes) × Unread (drop get_meta_size bytes) files w)
        Anything
read_meta-Unread bytes files =
    Contract-weaken
      (both (read_exact-ReadOf get_meta_size)
        (read_exact-Tracked (frozen files) {b = 0} {h = 0} {s = 0} get_meta_size))
      (λ got w ((e, comes), same). (e, (comes, same)))

request_get-Got :
    (name dest : Bytes) (resume : Resume) (bytes : Bytes) (files : List (Key × Node))
    → Triple
        (Unread bytes files)
        (request_get name dest resume)
        (λ _. Got dest files (parse_meta (meta_bytes bytes)) (body_bytes bytes))
        Anything
unfolding request_get send_get
request_get-Got name dest resume bytes files =
    let L = frozen files in
    Contract-then
      (record {
        runs = λ w.
            (both (write_frame-Comes _ _) (write_frame-Tracked L {b = 0} {h = 0} {s = 0} _ _)).runs
              w;
      })
      (Contract-bind
        (both read_frame_header-Comes (read_frame_header-Tracked L {b = 0} {h = 0} {s = 0}))
        (λ h.
          Contract-then
            (both (check_get_reply-Comes h) (check_get_reply-Tracked L {b = 0} {h = 0} {s = 0} h))
            (Contract-bind (read_meta-Unread (drop header_size bytes) files) (λ meta.
              Contract-given (λ e.
                named-Got name dest resume (body_bytes bytes) meta (meta_bytes bytes) files e)))))

pub do_get-Triple :
    (name dest bytes : Bytes) (files : List (Key × Node))
    → Triple
        (Unread bytes files)
        (do_get name dest)
        (λ _. Got dest files (parse_meta (meta_bytes bytes)) (body_bytes bytes))
        Anything
unfolding do_get
do_get-Triple name dest bytes files =
    let L = frozen files in
    Contract-bind
      (both (file_exists-Comes dest) (file_exists-Tracked L {b = 0} {h = 0} {s = 0} dest))
      (λ exists.
        Contract-if exists (λ _. Contract-refuse)
          (λ _.
            Contract-bind
              (both (Contract-attempt_same (find_partial-Comes dest path_max)) (
                Contract-attempt_same (
                  Contract-weaken (find_partial-Tracked L {b = 0} {h = 0} {s = 0} dest)
                    (λ _ w (_, same). same))))
              (λ found.
                Contract-if (ltb max_name (length name)) (λ _. Contract-refuse)
                  (λ _. request_get-Got name dest (resume_of found) bytes files))))

-- Where `rtrv_do_get` returns 0, whatever the server, the files and the faults were: the
-- destination is a regular file that ends in the body as it came behind the metadata, all of the
-- size that the metadata give; before it stands just what the partial file for the announced hash held
-- when the call began, where the metadata's start offset is not 0, and nothing where it is 0; and the
-- SHA-256 of all of it is the hash in the metadata.
pub do_get-Got :
    (name dest : Bytes) (w w' : World)
    → do_get name dest w ≡ ok tt w'
    → Got dest w.files (parse_meta (meta_bytes (stream w.inbox))) (body_bytes (stream w.inbox)) w'
do_get-Got name dest w w' e =
    subst
      (λ (r : Run (Unit {0})).
        Lands
          (λ _.
            Got dest w.files (parse_meta (meta_bytes (stream w.inbox)))
              (body_bytes (stream w.inbox)))
          Anything r)
      e ((do_get-Triple name dest (stream w.inbox) w.files).runs w (refl, refl))
