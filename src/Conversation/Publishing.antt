-- ===== src/Conversation/Publishing.antt =====
-- How GET ends, without faults: the file is renamed or removed.
use retriever.Base.{◌≡◌, ap, Bool}
use retriever.Base.{List, ◌++◌}
use retriever.Base.{bytes_eq, bytes_eq_refl, bytes_eq→eq, [], ◌∷◌}
use retriever.Os.World.{Bytes, Message}
use retriever.Os.World.{cannot_rename, hash_mismatch}
use retriever.Os.Program.{say, draw}
use retriever.Os.Files.{resolve, rename, remove}
use retriever.Os.Lookup.{lookup-insert, lookup-erase}
use retriever.Os.Triples.{Contract, Contract-then, Contract-on_error}
use retriever.Os.Triples.{Contract-if, Contract-fail}
use retriever.Os.Calm.{Contract-sure, Never, needless}
use retriever.Transfer.Get.{publish}
use retriever.Conversation.Frames.{Disk, Talking, say-Talking}
use retriever.Conversation.Download.{File, Missing, stores-Talking}

module _ {sent : Bytes} {log : List Message} {bytes : Bytes} where
  rename-Talking :
      (path dest c : Bytes)
      → Contract Never
          (Talking (File path c) sent log bytes)
          (rename path dest)
          (λ _. Talking (File dest c) sent log bytes)
          Never
  unfolding rename
  rename-Talking path dest c = record {
    runs = λ w t.
        rw (ap (λ (fs : List Bool). draw fs) t.clear, t.stored)
          (stores-Talking _ _ w t (lookup-insert _ _ _));
  }

  -- A file with the announced hash takes the place of the destination.
  pub publish-Talking :
      (path dest c digest : Bytes)
      → Contract Never
          (Talking (File path c) sent log bytes)
          (publish path dest digest digest)
          (λ _. Talking (File dest c) sent log bytes)
          Never
  unfolding publish
  publish-Talking path dest c digest =
      Contract-if (bytes_eq digest digest)
        (λ _.
          Contract-on_error (rename-Talking path dest c) (needless (say (cannot_rename path dest))))
        (λ other. let same = bytes_eq_refl digest in absurd cc)

  remove-Talking :
      {disk : Disk} (path : Bytes)
      → Contract Never
          (Talking disk sent log bytes)
          (remove path)
          (λ _. Talking (Missing path) sent log bytes)
          Never
  unfolding remove
  remove-Talking path = record {
    runs = λ w t.
        rw (ap (λ (fs : List Bool). draw fs) t.clear)
          (stores-Talking _ w.handles w t (lookup-erase (resolve path) w.files));
  }

  -- A file with another hash is removed.
  pub publish_other-Talking :
      {disk : Disk} (path dest actual digest : Bytes)
      → ¬ (actual ≡ digest)
      → Contract Never
          (Talking disk sent log bytes)
          (publish path dest actual digest)
          (λ _. Never)
          (Talking (Missing path) sent (log ++ (hash_mismatch ∷ [])) bytes)
  unfolding publish
  publish_other-Talking path dest actual digest other =
      Contract-if (bytes_eq actual digest) (λ same. absurd (other (bytes_eq→eq actual digest same)))
        (λ _.
          Contract-then (Contract-sure (remove-Talking path))
            (Contract-then (Contract-sure (say-Talking hash_mismatch)) Contract-fail))
