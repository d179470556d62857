-- ===== src/Conversation/Put.antt =====
-- `rtrv_do_put` against a server that keeps the protocol.
use retriever.Base.{ℕ, sym, ◌^◌, ◌≤◌, ◌<◌, ◌≡◌, refl, ap, subst, ◌∙◌, arith}
use retriever.Base.{List, [], ◌∷◌, ◌++◌, append_assoc, some, length}
use retriever.Base.{drop, All, ltb}
use retriever.Packing.Layout.{IsByte}
use retriever.Os.World.{World, Bytes, Key, Node, Message, regular, uploaded}
use retriever.Os.World.{cannot_read}
use retriever.Os.Program.{say, ◌>>=◌, ◌>>◌}
use retriever.Os.Files.{lookup, resolve}
use retriever.Os.Triples.{Ends, Contract, Contract-then, Contract-known, Contract-if}
use retriever.Os.Triples.{Contract-on_error}
use retriever.Os.Calm.{needless, IsSound, Never, Contract-sure}
use retriever.Socket.Stream.{stream}
use retriever.Sha256.Padding.{sha256}
use retriever.Frame.{read_frame, payload_cap, t_ok, t_put}
use retriever.Frame.Writing.{frame_bytes}
use retriever.Transfer.Path.{max_name}
use retriever.Transfer.Requests.{request}
use retriever.Transfer.Put.{check_verdict, request_put, do_put}
use retriever.Transfer.Put.Integrity.{put_bytes}
use retriever.Conversation.Frames.{Same, Disk, Same, Talking, read_frame-Talking, say-Talking}
use retriever.Conversation.Local.{Stores, local_size-Talking, sha256_file-Talking}
use retriever.Conversation.Upload.{upload-Talking}
use retriever.Conversation.Offset.{
  resumed, go_on, send_put-Talking, read_offset-Talking, check_offset-Talking,
  check_verdict-Talking,
}

-- A local file, and what the server says: the offset within the file.
pub record CanStore (disk : Disk) (path name c : Bytes) (offset : ℕ) (extra : Bytes) : Type 0 where
  pub held : Stores disk path c
  pub short : length name ≤ max_name
  pub small : length c < 2 ^ 64
  pub within : offset ≤ length c
  pub bytes : All IsByte extra
  pub reply_fits : length (go_on offset extra) ≤ payload_cap

-- The server's part of a PUT.
abbrev pub put_replies : ℕ → Bytes → Bytes → Bytes → Bytes
put_replies offset extra verdict rest =
    frame_bytes t_ok (go_on offset extra) ++ (frame_bytes t_ok verdict ++ rest)

-- What the client prints.
abbrev pub put_report : Bytes → Bytes → Bytes → ℕ → List Message
put_report path name c offset = resumed offset ++ (uploaded path (length c) name ∷ [])

module _ (disk : Disk) (sent : Bytes) (log : List Message) (path name c : Bytes) (offset : ℕ)
    (extra ahead : Bytes) (can : CanStore disk path name c offset extra) where
  abbrev reply : Bytes
  reply = frame_bytes t_ok (go_on offset extra) ++ ahead

  -- What is left is what the verdict leaves.
  module _ {Q E : World → Type 0}
      (finishes : Contract Never
        (Talking disk (sent ++ put_bytes c name offset) (log ++ resumed offset) ahead)
        (read_frame >>= λ v. check_verdict v >> say (uploaded path (length c) name))
        (λ _. Q)
        E) where
    request_put-known :
        Contract Never
          (Talking disk sent log reply)
          (request_put path name (length c) (sha256 c))
          (λ _. Q)
          E
    unfolding request_put
    request_put-known =
        let asked : Bytes = sent ++ frame_bytes t_put (request (length c) (sha256 c) name) in
        Contract-then (Contract-sure (send_put-Talking c name can.short)) (
          Contract-known _
            (Contract-sure
              (read_frame-Talking t_ok (go_on offset extra) ahead (omega arith) can.reply_fits))
            (Contract-known _
              (Contract-sure
                (read_offset-Talking offset extra (omega (arith, can.within, can.small)) can.bytes))
              (Contract-then (Contract-sure (check_offset-Talking (length c) offset can.within)) (
                Contract-then
                  (Contract-sure (
                    upload-Talking disk (log ++ resumed offset) ahead path asked c offset can.held))
                  (subst
                    (λ (b : Bytes).
                      Contract Never (Talking disk b (log ++ resumed offset) ahead)
                        (read_frame >>= λ v. check_verdict v >> say (uploaded path (length c) name))
                        (λ _. Q) E)
                    (sym (append_assoc sent _ (drop offset c))) finishes)))))

    pub do_put-known : Contract Never (Talking disk sent log reply) (do_put path name) (λ _. Q) E
    unfolding do_put
    do_put-known = Contract-known _ (Contract-sure (local_size-Talking path c can.held)) (
        Contract-known _
          (Contract-sure (
            Contract-on_error (sha256_file-Talking path c can.held)
              (needless (say (cannot_read path)))))
          (Contract-if (ltb max_name (length name))
            (λ long. absurd (ground (arith, long, can.short))) (λ _. request_put-known)))

-- The server has stored it.
module _ (disk : Disk) (sent : Bytes) (log : List Message) (path name c : Bytes) (offset : ℕ)
    (extra verdict rest : Bytes) (can : CanStore disk path name c offset extra)
    (verdict_fits : length verdict ≤ payload_cap) where
  pub do_put-Talking :
      Contract Never
        (Talking disk sent log (put_replies offset extra verdict rest))
        (do_put path name)
        (λ _.
          Talking disk
            (sent ++ put_bytes c name offset)
            (log ++ put_report path name c offset)
            rest)
        Never
  do_put-Talking =
      let told : Bytes = sent ++ put_bytes c name offset in
      do_put-known disk sent log path name c offset extra (frame_bytes t_ok verdict ++ rest) can (
        Contract-known _ (read_frame-Talking t_ok verdict rest (omega arith) verdict_fits) (
          Contract-then (check_verdict-Talking verdict) (
            subst
              (λ (l : List Message).
                Contract Never (Talking disk told (log ++ resumed offset) rest)
                  (say (uploaded path (length c) name)) (λ _. Talking disk told l rest) Never)
              (append_assoc log (resumed offset) _) (say-Talking (uploaded path (length c) name)))))

-- Where no call of the C library fails, the connection takes what is sent, a regular file stands at
-- the local path, the name is within its limit, and the server answers PUT with an OK frame that
-- begins with an offset within the file and the upload with an OK frame: `rtrv_do_put` returns 0. It
-- has sent the request and the file from just that offset on, it has printed where it resumed, if it
-- did, and that the file is uploaded, no file has changed, and the bytes behind the second frame are
-- the next to come.
do_put-uploads :
    (path name c extra verdict rest : Bytes) (offset : ℕ) (w : World)
    → w.faults ≡ []
    → IsSound w.rooms
    → lookup (resolve path) w.files ≡ some (regular c)
    → length name ≤ max_name
    → length c < 2 ^ 64
    → offset ≤ length c
    → All IsByte extra
    → length (go_on offset extra) ≤ payload_cap
    → length verdict ≤ payload_cap
    → stream w.inbox ≡ put_replies offset extra verdict rest
    → Ends
        (λ _.
          Talking
            (Same w.files)
            (w.sent ++ put_bytes c name offset)
            (w.log ++ put_report path name c offset)
            rest)
        (λ _. ⊥)
        (do_put path name w)
do_put-uploads path name c extra verdict rest offset w clear sound held short small within bytes
      reply_fits verdict_fits comes =
    let can : CanStore (Same w.files) path name c offset extra = record {
      held = λ fs same. ap (λ (gs : List (Key × Node)). lookup (resolve path) gs) same ∙ held;
      short = short;
      small = small;
      within = within;
      bytes = bytes;
      reply_fits = reply_fits;
    } in
    (do_put-Talking (Same w.files) w.sent w.log path name c offset extra verdict rest can
        verdict_fits).runs
      w
      (record {
        stored = refl;
        said = refl;
        shown = refl;
        clear = clear;
        sound = sound;
        comes = comes;
      })
