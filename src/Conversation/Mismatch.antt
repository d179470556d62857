-- ===== src/Conversation/Mismatch.antt =====
-- `rtrv_do_get` where what is downloaded is not what the server has announced.
use retriever.Base.{ℕ, ◌+◌, ◌^◌, ◌≤◌, ◌<◌, ◌≡◌, ap, subst, ◌∙◌, arith}
use retriever.Base.{List, [], ◌∷◌, ◌++◌, append_assoc, none, length, length-append}
use retriever.Os.World.{Bytes, Key, Node, Message, resuming, hash_mismatch}
use retriever.Os.Files.{lookup, resolve}
use retriever.Os.Triples.{Anything, Settles, Contract, Contract-fails, Contract-failed}
use retriever.Os.Calm.{Never}
use retriever.Sha256.Padding.{sha256}
use retriever.Transfer.Path.{max_name}
use retriever.Transfer.Get.{do_get}
use retriever.Transfer.Get.Untouched.{do_get-keeps_dest}
use retriever.Conversation.Frames.{Same, Talking}
use retriever.Conversation.Search.{Kept, partial_of}
use retriever.Conversation.Download.{Missing}
use retriever.Conversation.Finish.{download_other-Talking}
use retriever.Conversation.Asked.{offers}
use retriever.Conversation.Get.{asks, do_get-known}

-- What is printed of it.
abbrev pub mismatch_report : Bytes → ℕ → List Message
mismatch_report name start = resuming name start ∷ (hash_mismatch ∷ [])

-- `c` is kept of the file with the hash `d`, and `tail` comes.
module _ (files : List (Key × Node)) (sent : Bytes) (log : List Message)
    (name dest dir base d c tail more : Bytes) (n : ℕ) (kept : Kept files dest dir base d c)
    (digested : length d ≡ 32) (other : ¬ (sha256 (c ++ tail) ≡ d))
    (missing : lookup (resolve dest) files ≡ none) (begun : 0 < length c)
    (short : length name ≤ max_name) (fits : n < 2 ^ 64) (small : length (c ++ tail) < 2 ^ 64) where
  abbrev replies : Bytes
  replies = offers n (length (c ++ tail)) (length c) d (tail ++ more)

  do_get-removes :
      Contract Never
        (Talking (Same files) sent log replies)
        (do_get name dest)
        (λ _. Never)
        (Talking
          (Missing (partial_of dest dir base d))
          (sent ++ asks name (length c) d)
          (log ++ mismatch_report name (length c))
          more)
  do_get-removes =
      let sizes : length (c ++ tail) ≡ length c + length tail = length-append c tail in
      let partial : Bytes = partial_of dest dir base d in
      do_get-known files sent log name dest dir base d c (tail ++ more) n (length (c ++ tail)) kept
        digested missing short fits small (omega (arith, sizes, small))
        (Contract-fails
          (download_other-Talking (Same files) (sent ++ asks name (length c) d) log name dest
            partial c tail more _ _
            (λ fs same.
              ap (λ (gs : List (Key × Node)). lookup (resolve partial) gs) same ∙ kept.held)
            (ground (arith, begun)) (omega (arith, sizes, small)) other)
          (λ w t.
            subst
              (λ (l : List Message).
                Talking (Missing partial) (sent ++ asks name (length c) d) l more w)
              (append_assoc log (resuming name (length c) ∷ []) _) t))

  -- Neither the partial file nor the destination is there.
  pub do_get-mismatched :
      Contract Never
        (Talking (Same files) sent log replies)
        (do_get name dest)
        (λ _. Never)
        (Talking
          (λ fs. Missing (partial_of dest dir base d) fs × Missing dest fs)
          (sent ++ asks name (length c) d)
          (log ++ mismatch_report name (length c))
          more)
  do_get-mismatched = record {
    runs = λ w t.
        (Contract-fails (Contract-failed do_get-removes keeps) (λ v (u, gone). record {
          stored = (u.stored, gone);
          said = u.said;
          shown = u.shown;
          clear = u.clear;
          sound = u.sound;
          comes = u.comes;
        })).runs
          w (t, ap (λ (fs : List (Key × Node)). lookup (resolve dest) fs) t.stored ∙ missing);
  }
    where
      keeps :
          Contract
            (λ w. Missing dest w.files)
            (λ w. Missing dest w.files)
            (do_get name dest)
            (λ _. Anything)
            (λ w. Missing dest w.files)
      keeps = record {
        runs = λ w gone.
            subst
              (λ v.
                Settles (λ u. lookup (resolve dest) u.files ≡ v) (λ _. Anything)
                  (λ u. lookup (resolve dest) u.files ≡ v) (do_get name dest w))
              gone (do_get-keeps_dest name dest w);
      }
