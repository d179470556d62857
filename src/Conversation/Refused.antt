-- ===== src/Conversation/Refused.antt =====
-- Each command against a server that answers it with an ERROR frame.
use retriever.Base.{ℕ, ◌≤◌, ◌≡◌, refl, ap, sym, subst, ◌∙◌, arith, ltb}
use retriever.Base.{List, [], ◌∷◌, ◌++◌, append_assoc, none, some, length}
use retriever.Os.World.{World, Bytes, Key, Node, Message, regular, cannot_read}
use retriever.Os.Program.{M, ◌>>=◌, ◌>>◌, say}
use retriever.Socket.{read_exact}
use retriever.Transfer.Path.{partial_name, path_max}
use retriever.Transfer.Get.{get_meta_size, parse_meta, download}
use retriever.Os.Files.{lookup, resolve}
use retriever.Os.Triples.{Contract, Contract-bind, Contract-then, Contract-known, Contract-given}
use retriever.Os.Triples.{Contract-if, Contract-on_error, Contract-fails}
use retriever.Os.Calm.{Never, Contract-sure, needless}
use retriever.Sha256.Padding.{sha256}
use retriever.Frame.{payload_cap, t_error, t_list, t_get, t_put, read_frame_header}
use retriever.Frame.Encoding.{encode_header}
use retriever.Frame.Writing.{frame_bytes}
use retriever.Session.{do_list}
use retriever.Transfer.Path.{max_name}
use retriever.Transfer.Requests.{request}
use retriever.Transfer.Put.{request_put, do_put}
use retriever.Transfer.Get.{Resume, resume_of, check_get_reply, request_get, do_get}
use retriever.Conversation.Frames.{Same, Talking, write_frame-Talking, read_frame-Talking}
use retriever.Conversation.Local.{local_size-Talking, sha256_file-Talking, file_exists-Talking}
use retriever.Conversation.Offset.{send_put-Talking}
use retriever.Conversation.AnySearch.{searched_any}
use retriever.Conversation.Asked.{read_frame_header-Talking, send_get-Talking}
use retriever.Conversation.Errors.{
  error_bytes, complaint, IsError, show_list-refused, read_offset-refused, read_error-refused,
}
use retriever.Main.{Command, perform}

-- What a command needs to come to its request.
abbrev pub CanAsk : Command → List (Key × Node) → Type 0
CanAsk Command.list files = Unit {0}
CanAsk (Command.get name dest) files =
    (lookup (resolve dest) files ≡ none) × (length name ≤ max_name)
CanAsk (Command.put path name) files =
    (c : Bytes) × ((lookup (resolve path) files ≡ some (regular c)) × (length name ≤ max_name))

-- The request of a command.
abbrev pub Asks : Command → List (Key × Node) → Bytes → Type 0
Asks Command.list files asked = asked ≡ frame_bytes t_list []
Asks (Command.get name dest) files asked =
    (offset : ℕ) × ((token : Bytes) × ((length token ≡ 8)
        × (asked ≡ frame_bytes t_get (request offset token name))))
Asks (Command.put path name) files asked =
    (c : Bytes) × ((lookup (resolve path) files ≡ some (regular c))
      × (asked ≡ frame_bytes t_put (request (length c) (sha256 c) name)))

-- The request is made, and the error is printed.
abbrev pub Refused :
    Command → List (Key × Node) → Bytes → List Message → ℕ → Bytes → Bytes → World → Type 0
Refused c files sent log code message rest w =
    (asked : Bytes) × (Asks c files asked
      × Talking (Same files) (sent ++ asked) (log ++ (complaint code message ∷ [])) rest w)

-- What `rtrv_do_get` does once it has asked.
abbrev after_request : Bytes → Bytes → Resume → M (Unit {0})
after_request name dest resume = do
  h ← read_frame_header
  check_get_reply h
  meta ← read_exact get_meta_size
  partial ← partial_name dest (parse_meta meta).digest path_max
  download name dest resume (parse_meta meta) partial

module _ (files : List (Key × Node)) (sent : Bytes) (log : List Message) (code : ℕ)
    (message rest : Bytes) (e : IsError code message)
    (fits : length (error_bytes code message) ≤ payload_cap) where
  abbrev reply : Bytes
  reply = frame_bytes t_error (error_bytes code message) ++ rest

  do_list-Refused :
      Contract Never
        (Talking (Same files) sent log reply)
        do_list
        (λ _. Never)
        (Refused Command.list files sent log code message rest)
  unfolding do_list
  do_list-Refused =
      Contract-fails
        (Contract-then (Contract-sure (write_frame-Talking t_list [])) (
          Contract-known _
            (Contract-sure
              (read_frame-Talking t_error (error_bytes code message) rest (omega arith) fits))
            (show_list-refused code message e)))
        (λ w t. (frame_bytes t_list [], (refl, t)))

  request_put-Refused :
      (path name c : Bytes)
      → lookup (resolve path) files ≡ some (regular c)
      → length name ≤ max_name
      → Contract Never
          (Talking (Same files) sent log reply)
          (request_put path name (length c) (sha256 c))
          (λ _. Never)
          (Refused (Command.put path name) files sent log code message rest)
  unfolding request_put
  request_put-Refused path name c held short =
      Contract-fails
        (Contract-then (Contract-sure (send_put-Talking c name short)) (
          Contract-known _
            (Contract-sure
              (read_frame-Talking t_error (error_bytes code message) rest (omega arith) fits))
            (Contract-bind (read_offset-refused code message e)
              (λ offset. record { runs = λ w n. absurd n }))))
        (λ w t. (frame_bytes t_put (request (length c) (sha256 c) name), ((c, (held, refl)), t)))

  do_put-Refused :
      (path name c : Bytes)
      → lookup (resolve path) files ≡ some (regular c)
      → length name ≤ max_name
      → Contract Never
          (Talking (Same files) sent log reply)
          (do_put path name)
          (λ _. Never)
          (Refused (Command.put path name) files sent log code message rest)
  unfolding do_put
  do_put-Refused path name c held short =
      let stored : (fs : List (Key × Node))
          → fs ≡ files
          → lookup (resolve path) fs ≡ some (regular c) =
        λ fs same. ap (λ (gs : List (Key × Node)). lookup (resolve path) gs) same ∙ held in
      Contract-known _ (Contract-sure (local_size-Talking path c stored)) (
        Contract-known _
          (Contract-sure (
            Contract-on_error (sha256_file-Talking path c stored)
              (needless (say (cannot_read path)))))
          (Contract-if (ltb max_name (length name)) (λ long. absurd (ground (arith, long, short)))
            (λ _. request_put-Refused path name c held short)))

  check_get_reply-refused :
      {said : Bytes}
      → Contract Never
          (Talking (Same files) said log (error_bytes code message ++ rest))
          (check_get_reply
            (record { type = t_error; payload_len = length (error_bytes code message) }))
          (λ _. Never)
          (Talking (Same files) said (log ++ (complaint code message ∷ [])) rest)
  unfolding check_get_reply
  check_get_reply-refused =
      Contract-if (ltb payload_cap (length (error_bytes code message)))
        (λ long. absurd (ground (arith, long, fits))) (λ _. read_error-refused code message e rest)

  request_get-Refused :
      (name dest : Bytes) (resume : Resume)
      → length resume.token ≡ 8
      → length name ≤ max_name
      → Contract Never
          (Talking (Same files) sent log reply)
          (request_get name dest resume)
          (λ _. Never)
          (Refused (Command.get name dest) files sent log code message rest)
  unfolding request_get
  request_get-Refused name dest resume token short =
      let n : ℕ = length (error_bytes code message) in
      let asked : Bytes = frame_bytes t_get (request resume.offset resume.token name) in
      let apart : reply ≡ encode_header t_error n ++ (error_bytes code message ++ rest) =
        append_assoc (encode_header t_error n) (error_bytes code message) rest in
      Contract-fails
        (Contract-then (Contract-sure (send_get-Talking resume name reply token short)) (
          subst
            (λ (b : Bytes).
              Contract Never (Talking (Same files) (sent ++ asked) log b)
                (after_request name dest resume) (λ _. Never)
                (Talking (Same files) (sent ++ asked) (log ++ (complaint code message ∷ [])) rest))
            (sym apart)
            (Contract-known _
              (Contract-sure (
                read_frame_header-Talking t_error n (error_bytes code message ++ rest) (omega arith)
                  (omega (arith, fits))))
              (Contract-bind check_get_reply-refused (λ _. record { runs = λ w n. absurd n })))))
        (λ w t. (asked, ((resume.offset, (resume.token, (token, refl))), t)))

  do_get-Refused :
      (name dest : Bytes)
      → lookup (resolve dest) files ≡ none
      → length name ≤ max_name
      → Contract Never
          (Talking (Same files) sent log reply)
          (do_get name dest)
          (λ _. Never)
          (Refused (Command.get name dest) files sent log code message rest)
  unfolding do_get
  do_get-Refused name dest missing short =
      Contract-known _
        (Contract-sure (
          file_exists-Talking dest
            (λ fs same. ap (λ (gs : List (Key × Node)). lookup (resolve dest) gs) same ∙ missing)))
        (Contract-bind (Contract-sure (searched_any dest)) (λ found. Contract-given (λ token.
          Contract-if (ltb max_name (length name)) (λ long. absurd (ground (arith, long, short)))
            (λ _. request_get-Refused name dest (resume_of found) token short))))

  -- Each command, answered with an error.
  pub perform-Refused :
      (c : Command)
      → CanAsk c files
      → Contract Never
          (Talking (Same files) sent log reply)
          (perform c)
          (λ _. Never)
          (Refused c files sent log code message rest)
  unfolding perform
  perform-Refused Command.list can = do_list-Refused
  perform-Refused (Command.get name dest) (missing, short) = do_get-Refused name dest missing short
  perform-Refused (Command.put path name) (c, (held, short)) = do_put-Refused path name c held short
