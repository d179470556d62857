-- ===== src/Conversation/Saving.antt =====
-- GET from the metadata on, without faults, once the partial file is settled.
use retriever.Base.{ℕ, ◌≡◌, sym, subst, arith}
use retriever.Base.{List, [], ◌∷◌, ◌++◌, length, length-append, take}
use retriever.Base.{drop, take-append, drop-append, ltb}
use retriever.Os.World.{World, Bytes, Message, downloaded, hash_mismatch}
use retriever.Os.World.{cannot_write, cannot_flush, cannot_verify}
use retriever.Os.Program.{say, ◌>>◌}
use retriever.Os.Files.{open_write}
use retriever.Os.Triples.{Contract, Contract-then, Contract-known}
use retriever.Os.Triples.{Contract-on_error, Contract-weaken}
use retriever.Os.Calm.{Never, needless, Contract-sure}
use retriever.Sha256.Padding.{sha256}
use retriever.Transfer.Get.{Resume, Meta, body_size, settle_partial, download, publish}
use retriever.Conversation.Frames.{Disk, Talking, say-Talking}
use retriever.Conversation.Local.{sha256_file-Talking}
use retriever.Conversation.Publishing.{publish-Talking, publish_other-Talking}
use retriever.Conversation.Download.{File, Missing, download_loop-Talking, close_written-Talking}

-- The file holds `c` once it is open, and `tail` comes.
module _ (disk settled : Disk) (sent : Bytes) (log after_settling : List Message)
    (name dest partial c tail more : Bytes) (resume : Resume) (m : Meta)
    (settles : Contract Never
      (Talking disk sent log (tail ++ more))
      (settle_partial name resume m.start)
      (λ _. Talking settled sent after_settling (tail ++ more))
      Never)
    (opens : Contract Never
      (Talking settled sent after_settling (tail ++ more))
      (open_write partial (ltb 0 m.start))
      (λ _. Talking (File partial c) sent after_settling (tail ++ more))
      Never)
    (size : body_size m ≡ length tail) where
  completed :
      (w : World)
      → Talking
          (File partial (c ++ take (body_size m) (tail ++ more)))
          sent
          after_settling
          (drop (body_size m) (tail ++ more))
          w
      → Talking (File partial (c ++ tail)) sent after_settling more w
  completed w t =
      subst (λ (b : Bytes). Talking (File partial (c ++ tail)) sent after_settling b w)
        (drop-append (body_size m) tail more (sym size))
        (subst
          (λ (b : Bytes).
            Talking (File partial (c ++ b)) sent after_settling (drop (body_size m) (tail ++ more))
              w)
          (take-append (body_size m) tail more (sym size)) t)

  abbrev ended : Bytes
  ended = sha256 (c ++ tail)

  -- What is left is what the comparison of the hashes leaves.
  download-known :
      {Q E : World → Type 0}
      → Contract Never
          (Talking (File partial (c ++ tail)) sent after_settling more)
          (publish partial dest ended m.digest >> say (downloaded name m.total_size dest))
          (λ _. Q)
          E
      → Contract Never
          (Talking disk sent log (tail ++ more))
          (download name dest resume m partial)
          (λ _. Q)
          E
  unfolding download
  download-known finishes =
      let n : ℕ = body_size m in
      Contract-then (Contract-sure settles) (
        Contract-then
          (Contract-sure (Contract-on_error opens (needless (say (cannot_write partial)))))
          (Contract-then
            (Contract-sure (
              Contract-weaken
                (download_loop-Talking n n partial c (tail ++ more) (omega arith)
                  (omega (arith, size, length-append tail more)))
                (λ _. completed)))
            (Contract-then
              (Contract-sure
                (Contract-on_error close_written-Talking (needless (say (cannot_flush partial)))))
              (Contract-known _
                (Contract-sure (
                  Contract-on_error (sha256_file-Talking partial (c ++ tail) (λ fs h. h))
                    (needless (say (cannot_verify partial)))))
                finishes))))

  -- The announced hash is that of the file.
  pub saved :
      ended ≡ m.digest
      → Contract Never
          (Talking disk sent log (tail ++ more))
          (download name dest resume m partial)
          (λ _.
            Talking
              (File dest (c ++ tail))
              sent
              (after_settling ++ (downloaded name m.total_size dest ∷ []))
              more)
          Never
  saved hashed = download-known (
      Contract-then
        (subst
          (λ (d : Bytes).
            Contract Never (Talking (File partial (c ++ tail)) sent after_settling more)
              (publish partial dest ended d)
              (λ _. Talking (File dest (c ++ tail)) sent after_settling more) Never)
          hashed (publish-Talking partial dest (c ++ tail) ended))
        (say-Talking (downloaded name m.total_size dest)))

  -- It is another.
  pub removed :
      ¬ (ended ≡ m.digest)
      → Contract Never
          (Talking disk sent log (tail ++ more))
          (download name dest resume m partial)
          (λ _. Never)
          (Talking (Missing partial) sent (after_settling ++ (hash_mismatch ∷ [])) more)
  removed other = download-known (
      Contract-then (publish_other-Talking partial dest ended m.digest other)
        (record { runs = λ w n. absurd n }))
