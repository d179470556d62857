-- ===== src/Conversation/Finish.antt =====
-- GET from the metadata on, where a partial file is appended to, without faults.
use retriever.Base.{◌≡◌, sym, subst, true, Bool}
use retriever.Base.{List, [], ◌∷◌, ◌++◌, length}
use retriever.Base.{ltb}
use retriever.Os.World.{Bytes, Message, resuming, downloaded, hash_mismatch}
use retriever.Os.Files.{open_write}
use retriever.Os.Triples.{Contract}
use retriever.Os.Triples.{Contract-if}
use retriever.Os.Calm.{Never}
use retriever.Sha256.Padding.{sha256}
use retriever.Transfer.Get.{Resume, Meta, body_size, settle_partial, download}
use retriever.Conversation.Frames.{Disk, Talking, say-Talking}
use retriever.Conversation.Local.{Stores}
use retriever.Conversation.Download.{File, Missing, open_write-Talking}
use retriever.Conversation.Saving.{saved, removed}

-- From the metadata on: the file `c` is appended to.
module _ (disk : Disk) (sent : Bytes) (log : List Message) (name dest partial c tail more : Bytes)
    (resume : Resume) (m : Meta) (held : Stores disk partial c) (late : ltb 0 m.start ≡ true)
    (size : body_size m ≡ length tail) where
  abbrev after_settling : List Message
  after_settling = log ++ (resuming name m.start ∷ [])

  settle_partial-Talking :
      Contract Never
        (Talking disk sent log (tail ++ more))
        (settle_partial name resume m.start)
        (λ _. Talking disk sent after_settling (tail ++ more))
        Never
  unfolding settle_partial
  settle_partial-Talking =
      Contract-if (ltb 0 m.start) (λ _. say-Talking (resuming name m.start)) (λ early. absurd cc)

  reopened :
      Contract Never
        (Talking disk sent after_settling (tail ++ more))
        (open_write partial (ltb 0 m.start))
        (λ _. Talking (File partial c) sent after_settling (tail ++ more))
        Never
  reopened =
      subst
        (λ (b : Bool).
          Contract Never (Talking disk sent after_settling (tail ++ more)) (open_write partial b)
            (λ _. Talking (File partial c) sent after_settling (tail ++ more)) Never)
        (sym late) (open_write-Talking partial c held)

  pub download-Talking :
      sha256 (c ++ tail) ≡ m.digest
      → Contract Never
          (Talking disk sent log (tail ++ more))
          (download name dest resume m partial)
          (λ _.
            Talking
              (File dest (c ++ tail))
              sent
              (after_settling ++ (downloaded name m.total_size dest ∷ []))
              more)
          Never
  download-Talking =
      saved disk disk sent log after_settling name dest partial c tail more resume m
        settle_partial-Talking reopened size

  pub download_other-Talking :
      ¬ (sha256 (c ++ tail) ≡ m.digest)
      → Contract Never
          (Talking disk sent log (tail ++ more))
          (download name dest resume m partial)
          (λ _. Never)
          (Talking (Missing partial) sent (after_settling ++ (hash_mismatch ∷ [])) more)
  download_other-Talking =
      removed disk disk sent log after_settling name dest partial c tail more resume m
        settle_partial-Talking reopened size
