-- ===== src/Transfer/Put/Integrity.antt =====
-- What `rtrv_do_put` has sent where it returns 0.
use retriever.Base.{ℕ, ◌≤◌, ◌≡◌, refl, ◌∙◌, subst, arith, ◌++◌, List, some, length, drop, ltb}
use retriever.Base.{append_assoc}
use retriever.Os.World.{World, Bytes, Key, Node, regular}
use retriever.Os.Program.{Run, ok}
use retriever.Os.Files.{lookup, resolve}
use retriever.Os.Triples.{
  Triple, Lands, Anything, Contract-bind, Contract-then, Contract-refuse, Contract-if,
}
use retriever.Os.Triples.{Contract-on_error, Contract-said, Contract-given, Contract-some}
use retriever.Frame.{t_put}
use retriever.Frame.Writing.{frame_bytes}
use retriever.Sha256.Padding.{sha256}
use retriever.Sha256.Keeping.{length-sha256}
use retriever.Transfer.Path.{max_name}
use retriever.Transfer.Requests.{request, send_put-eq}
use retriever.Transfer.Put.{request_put, do_put, send_put}
use retriever.Transfer.Put.Sending.{At, write_frame-At, read_frame-At}
use retriever.Transfer.Put.Reading.{local_size-Measured, sha256_file-Digest}
use retriever.Transfer.Put.Upload.{upload-Sent, read_offset-At, check_offset-At, check_verdict-At}

-- The request for a file with these contents, and its contents from an offset on.
abbrev pub put_bytes : Bytes → Bytes → ℕ → Bytes
put_bytes c name offset = frame_bytes t_put (request (length c) (sha256 c) name) ++ drop offset c

-- All of it is sent, and no file has changed.
abbrev pub Uploaded : Bytes → Bytes → List (Key × Node) → Bytes → World → Type 0
Uploaded path name files sent w =
    (c : Bytes) × ((lookup (resolve path) files ≡ some (regular c))
      × ((offset : ℕ) × ((offset ≤ length c) × At files (sent ++ put_bytes c name offset) w)))

module _ (path name : Bytes) (files : List (Key × Node)) (sent : Bytes) where
  send_put-At :
      (c : Bytes)
      → length name ≤ max_name
      → Triple
          (At files sent)
          (send_put (length c) (sha256 c) name)
          (λ _. At files (sent ++ frame_bytes t_put (request (length c) (sha256 c) name)))
          Anything
  send_put-At c fits = record {
    runs = λ w u.
        rw (send_put-eq (length c) (sha256 c) name w (length-sha256 c) fits)
          ((write_frame-At sent t_put (request (length c) (sha256 c) name)).runs w u);
  }

  request_put-Uploaded :
      (c : Bytes)
      → lookup (resolve path) files ≡ some (regular c)
      → length name ≤ max_name
      → Triple
          (At files sent)
          (request_put path name (length c) (sha256 c))
          (λ _. Uploaded path name files sent)
          Anything
  unfolding request_put
  request_put-Uploaded c held fits =
      let asked : Bytes = sent ++ frame_bytes t_put (request (length c) (sha256 c) name) in
      Contract-then (send_put-At c fits) (
        Contract-bind read_frame-At (λ f. Contract-bind (read_offset-At f) (λ offset.
          Contract-then (check_offset-At (length c) offset) (
            Contract-given (λ within. Contract-then (upload-Sent files path asked c offset held) (
              Contract-bind read_frame-At (λ verdict.
                Contract-then (check_verdict-At verdict) (record {
                  runs = λ w (same, e). (
                    c,
                    (held, (offset, (within, (same, e ∙ append_assoc sent _ (drop offset c))))),
                  );
                }))))))))

  hashed-Uploaded :
      (c : Bytes) (size : ℕ) (digest : Bytes)
      → lookup (resolve path) files ≡ some (regular c)
      → size ≡ length c
      → digest ≡ sha256 c
      → length name ≤ max_name
      → Triple
          (At files sent)
          (request_put path name size digest)
          (λ _. Uploaded path name files sent)
          Anything
  hashed-Uploaded c size digest held counted hashed fits =
      rw (counted, hashed) (request_put-Uploaded c held fits)

  do_put-Triple :
      Triple (At files sent) (do_put path name) (λ _. Uploaded path name files sent) Anything
  unfolding do_put
  do_put-Triple = Contract-bind (local_size-Measured files sent path) (λ size. Contract-some (λ c.
      Contract-given (λ held. Contract-given (λ counted.
        Contract-bind (Contract-on_error (sha256_file-Digest path c held) Contract-said) (λ digest.
          Contract-given (λ hashed.
            Contract-if (ltb max_name (length name)) (λ _. Contract-refuse)
              (λ fits. hashed-Uploaded c size digest held counted hashed (ground arith))))))))

-- Where `rtrv_do_put` returns 0, whatever the server, the connection and the faults were: the local
-- path is a regular file; what was sent is one PUT frame with the file's size, its SHA-256 and the
-- remote name in the layout of the protocol, and then the file's bytes from some offset within it to
-- its end, all of them and nothing else; and no file has changed.
pub do_put-Uploaded :
    (path name : Bytes) (w w' : World)
    → do_put path name w ≡ ok tt w'
    → Uploaded path name w.files w.sent w'
do_put-Uploaded path name w w' e =
    subst (λ (r : Run (Unit {0})). Lands (λ _. Uploaded path name w.files w.sent) Anything r) e
      ((do_put-Triple path name w.files w.sent).runs w (refl, refl))
