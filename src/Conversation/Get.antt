-- ===== src/Conversation/Get.antt =====
-- `rtrv_do_get` where it goes on from a partial file, against a server that keeps the protocol.
use retriever.Base.{ℕ, ◌+◌, ◌^◌, ◌≤◌, ◌<◌, ◌≡◌, refl, ap, subst, ◌∙◌, arith}
use retriever.Base.{List, [], ◌∷◌, ◌++◌, append_assoc, some, none, length, length-append, take}
use retriever.Base.{length-take}
use retriever.Os.World.{World, Bytes, Key, Node, Message, resuming, downloaded}
use retriever.Os.Files.{lookup, resolve}
use retriever.Os.Triples.{Contract}
use retriever.Os.Triples.{Contract-weaken}
use retriever.Os.Calm.{Never}
use retriever.Sha256.Padding.{sha256}
use retriever.Sha256.Keeping.{length-sha256}
use retriever.Frame.{t_get}
use retriever.Frame.Writing.{frame_bytes}
use retriever.Transfer.Path.{max_name, token_size}
use retriever.Transfer.Requests.{request}
use retriever.Transfer.Get.{download, do_get, resume_of}
use retriever.Conversation.Frames.{Same, Talking}
use retriever.Conversation.Search.{Kept, partial_of, resumable, find_partial-Talking}
use retriever.Os.Calm.{attempt-known}
use retriever.Conversation.Download.{File}
use retriever.Conversation.Finish.{download-Talking}
use retriever.Conversation.Asked.{offers, do_get-found}

-- What is printed of a download that goes on from an offset.
abbrev pub get_report : Bytes → Bytes → ℕ → ℕ → List Message
get_report name dest start total = resuming name start ∷ (downloaded name total dest ∷ [])

-- A GET that asks for what is behind the `start` bytes of a partial file.
abbrev pub asks : Bytes → ℕ → Bytes → Bytes
asks name start digest = frame_bytes t_get (request start (take token_size digest) name)

-- Both for the file `c ++ tail`.
abbrev pub get_replies : ℕ → Bytes → Bytes → Bytes → Bytes
get_replies n c tail more =
    offers n (length (c ++ tail)) (length c) (sha256 (c ++ tail)) (tail ++ more)

abbrev pub get_bytes : Bytes → Bytes → Bytes → Bytes
get_bytes name c tail = asks name (length c) (sha256 (c ++ tail))

-- A destination, what is kept of the file with the hash `d`, and the metadata that the server sends.
module _ (files : List (Key × Node)) (sent : Bytes) (log : List Message)
    (name dest dir base d c ahead : Bytes) (n total : ℕ) (kept : Kept files dest dir base d c)
    (digested : length d ≡ 32) (missing : lookup (resolve dest) files ≡ none)
    (short : length name ≤ max_name) (fits : n < 2 ^ 64) (small : total < 2 ^ 64)
    (within : length c < 2 ^ 64) {Q E : World → Type 0}
    (downloads : Contract Never
      (Talking (Same files) (sent ++ asks name (length c) d) log ahead)
      (download name dest
        (resume_of (some (some (resumable dest dir base d c))))
        (record { total_size = total; start = length c; digest = d })
        (partial_of dest dir base d))
      (λ _. Q)
      E) where
  pub do_get-known :
      Contract Never
        (Talking (Same files) sent log (offers n total (length c) d ahead))
        (do_get name dest)
        (λ _. Q)
        E
  do_get-known =
      do_get-found files sent log name dest dir base d ahead n total (length c)
        (some (some (resumable dest dir base d c))) kept.parts digested kept.bytes missing short
        fits small within (omega (arith, length-take token_size d, digested)) downloads
        (attempt-known (find_partial-Talking files dest dir base d c kept))

-- The partial file is a beginning of the file that the server has.
module _ (files : List (Key × Node)) (sent : Bytes) (log : List Message)
    (name dest dir base c tail more : Bytes) (n : ℕ)
    (kept : Kept files dest dir base (sha256 (c ++ tail)) c)
    (missing : lookup (resolve dest) files ≡ none) (begun : 0 < length c)
    (short : length name ≤ max_name) (fits : n < 2 ^ 64) (small : length (c ++ tail) < 2 ^ 64) where
  abbrev body : Bytes
  body = c ++ tail

  pub do_get-Talking :
      Contract Never
        (Talking (Same files) sent log (get_replies n c tail more))
        (do_get name dest)
        (λ _.
          Talking
            (File dest body)
            (sent ++ get_bytes name c tail)
            (log ++ get_report name dest (length c) (length body))
            more)
        Never
  do_get-Talking =
      let sizes : length body ≡ length c + length tail = length-append c tail in
      let partial : Bytes = partial_of dest dir base (sha256 body) in
      do_get-known files sent log name dest dir base (sha256 body) c (tail ++ more) n (length body)
        kept (length-sha256 body) missing short fits small (omega (arith, sizes, small))
        (Contract-weaken
          (download-Talking (Same files) (sent ++ get_bytes name c tail) log name dest partial c
            tail more _ _
            (λ fs same.
              ap (λ (gs : List (Key × Node)). lookup (resolve partial) gs) same ∙ kept.held)
            (ground (arith, begun)) (omega (arith, sizes, small)) refl)
          (λ _ w t.
            subst
              (λ (l : List Message).
                Talking (File dest body) (sent ++ get_bytes name c tail) l more w)
              (append_assoc log (resuming name (length c) ∷ []) _) t))
