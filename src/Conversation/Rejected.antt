-- ===== src/Conversation/Rejected.antt =====
-- `rtrv_do_put` where the server answers the whole upload with an ERROR frame.
use retriever.Base.{ℕ, ◌≤◌, subst, arith, List, [], ◌∷◌, ◌++◌, append_assoc, length}
use retriever.Os.World.{Bytes, Message}
use retriever.Os.Triples.{Contract, Contract-then, Contract-known, Contract-fails}
use retriever.Os.Calm.{Never, Contract-sure}
use retriever.Frame.{payload_cap, t_ok, t_error}
use retriever.Frame.Writing.{frame_bytes}
use retriever.Transfer.Put.{do_put}
use retriever.Transfer.Put.Integrity.{put_bytes}
use retriever.Conversation.Frames.{Disk, Talking, read_frame-Talking}
use retriever.Conversation.Offset.{resumed, go_on}
use retriever.Conversation.Put.{CanStore, do_put-known}
use retriever.Conversation.Errors.{error_bytes, complaint, IsError, check_verdict-refused}

-- The server's part: an offset, and an error.
abbrev pub reject_replies : ℕ → Bytes → ℕ → Bytes → Bytes → Bytes
reject_replies offset extra code message rest =
    frame_bytes t_ok (go_on offset extra)
    ++ (frame_bytes t_error (error_bytes code message) ++ rest)

-- What is printed.
abbrev pub reject_report : ℕ → ℕ → Bytes → List Message
reject_report offset code message = resumed offset ++ (complaint code message ∷ [])

module _ (disk : Disk) (sent : Bytes) (log : List Message) (path name c : Bytes) (offset : ℕ)
    (extra : Bytes) (code : ℕ) (message rest : Bytes) (can : CanStore disk path name c offset extra)
    (e : IsError code message) (fits : length (error_bytes code message) ≤ payload_cap) where
  pub do_put-rejected :
      Contract Never
        (Talking disk sent log (reject_replies offset extra code message rest))
        (do_put path name)
        (λ _. Never)
        (Talking disk
          (sent ++ put_bytes c name offset)
          (log ++ reject_report offset code message)
          rest)
  do_put-rejected =
      let told : Bytes = sent ++ put_bytes c name offset in
      do_put-known disk sent log path name c offset extra
        (frame_bytes t_error (error_bytes code message) ++ rest) can
        (Contract-known _
          (Contract-sure
            (read_frame-Talking t_error (error_bytes code message) rest (omega arith) fits))
          (Contract-then
            (Contract-fails (check_verdict-refused code message e) (λ w t.
              subst (λ (l : List Message). Talking disk told l rest w)
                (append_assoc log (resumed offset) _) t))
            (record { runs = λ w n. absurd n })))
