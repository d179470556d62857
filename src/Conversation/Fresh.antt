-- ===== src/Conversation/Fresh.antt =====
-- `rtrv_do_get` of a file of which nothing is there, against a server that keeps the protocol.
use retriever.Base.{ℕ, ◌+◌, ◌^◌, ◌≤◌, ◌<◌, ◌≡◌, refl, ap, ◌∙◌, arith, Bool, false}
use retriever.Base.{if◌then◌else◌, List, [], ◌∷◌, ◌++◌, Option, none, some, length, replicate, ◌==◌}
use retriever.Os.World.{Bytes, Key, Node, Message, regular, special, downloaded}
use retriever.Os.Program.{draw, pure}
use retriever.Os.Files.{lookup, resolve, entries, open_write, emptied}
use retriever.Os.Lookup.{lookup-insert}
use retriever.Os.Triples.{Contract, Contract-then, Contract-known, Contract-if}
use retriever.Os.Calm.{Never, attempt-known}
use retriever.Sha256.Padding.{sha256}
use retriever.Sha256.Keeping.{length-sha256}
use retriever.Sha256.Shape.{sha256-All}
use retriever.Frame.{t_get}
use retriever.Frame.Writing.{frame_bytes}
use retriever.Transfer.Path.{dir_max, max_name, path_max, token_size, split_path}
use retriever.Transfer.Partial.{
  scan_entries, partial_path, inspect_partial, find_in_dir, find_partial,
}
use retriever.Transfer.Requests.{request}
use retriever.Transfer.Resuming.{prefix_of}
use retriever.Transfer.Get.{Resume, Meta, settle_partial, do_get, resume_of}
use retriever.Transfer.Get.Completing.{IsPlain}
use retriever.Conversation.Frames.{Same, Talking}
use retriever.Conversation.Local.{release-Talking}
use retriever.Conversation.Search.{partial_of, open_dir-Talking, find_partial-split}
use retriever.Conversation.Download.{File, stores-Talking}
use retriever.Conversation.Saving.{saved}
use retriever.Conversation.Asked.{offers, do_get-found}

-- A GET that asks for a whole file.
abbrev pub asks_all : Bytes → Bytes
asks_all name = frame_bytes t_get (request 0 (replicate token_size 0) name)

module _ (files : List (Key × Node)) {sent : Bytes} {log : List Message} {bytes : Bytes} where
  -- A file that is not there, or one that is emptied.
  open_new-Talking :
      (path : Bytes)
      → IsPlain (lookup (resolve path) files)
      → Contract Never
          (Talking (Same files) sent log bytes)
          (open_write path false)
          (λ _. Talking (File path []) sent log bytes)
          Never
  unfolding open_write
  open_new-Talking path plain = record {
    runs = λ w t.
        rw
          (
            ap (λ (fs : List Bool). draw fs) t.clear,
            ap (λ (fs : List (Key × Node)). emptied (lookup (resolve path) fs)) t.stored
                ∙ emptied-IsPlain (lookup (resolve path) files) plain,
          )
          (stores-Talking _ _ w t (lookup-insert _ _ _));
  }
    where
      emptied-IsPlain : (o : Option Node) → IsPlain o → emptied o ≡ some (regular [])
      emptied-IsPlain none p = refl
      emptied-IsPlain (some (regular b)) p = refl
      emptied-IsPlain (some (special n)) p = absurd p

  -- None of the directory's files is taken for the partial file, or more than one.
  find_nothing-Talking :
      (dest dir base : Bytes)
      → split_path dest dir_max (max_name + 1) ≡ some (dir, base)
      → ¬ ((scan_entries (prefix_of base) (entries (resolve dir) files) 0 []).0 ≡ 1)
      → Contract Never
          (Talking (Same files) sent log bytes)
          (find_partial dest path_max)
          (λ found w. (found ≡ none) × Talking (Same files) sent log bytes w)
          Never
  find_nothing-Talking dest dir base parts several = find_partial-split dest dir base parts (
      unfold find_in_dir in
      Contract-known _ (open_dir-Talking files dir) (
        Contract-then release-Talking
          (passed (scan_entries (prefix_of base) (entries (resolve dir) files) 0 []) several)))
    where
      passed :
          (scanned : ℕ × Bytes)
          → ¬ (scanned.0 ≡ 1)
          → Contract Never
              (Talking (Same files) sent log bytes)
              (if scanned.0 == 1
                then inspect_partial (partial_path dest dir scanned.1 path_max) scanned.1
                else pure none)
              (λ found w. (found ≡ none) × Talking (Same files) sent log bytes w)
              Never
      passed scanned other =
          Contract-if (scanned.0 == 1) (λ one. absurd (ground (arith, one, other)))
            (λ _. record { runs = λ w t. (refl, t) })

-- The server has the file `body`.
module _ (files : List (Key × Node)) (sent : Bytes) (log : List Message)
    (name dest dir base body more : Bytes) (n : ℕ)
    (parts : split_path dest dir_max (max_name + 1) ≡ some (dir, base))
    (missing : lookup (resolve dest) files ≡ none)
    (several : ¬ ((scan_entries (prefix_of base) (entries (resolve dir) files) 0 []).0 ≡ 1))
    (plain : IsPlain (lookup (resolve (partial_of dest dir base (sha256 body))) files))
    (short : length name ≤ max_name) (fits : n < 2 ^ 64) (small : length body < 2 ^ 64) where
  abbrev resume : Resume
  resume = resume_of (some none)

  abbrev announced : Meta
  announced = record { total_size = length body; start = 0; digest = sha256 body }

  settle_nothing-Talking :
      Contract Never
        (Talking (Same files) (sent ++ asks_all name) log (body ++ more))
        (settle_partial name resume 0)
        (λ _. Talking (Same files) (sent ++ asks_all name) log (body ++ more))
        Never
  unfolding settle_partial
  settle_nothing-Talking = record { runs = λ w t. t }

  pub do_get-fetches :
      Contract Never
        (Talking (Same files) sent log (offers n (length body) 0 (sha256 body) (body ++ more)))
        (do_get name dest)
        (λ _.
          Talking
            (File dest body)
            (sent ++ asks_all name)
            (log ++ (downloaded name (length body) dest ∷ []))
            more)
        Never
  do_get-fetches =
      do_get-found files sent log name dest dir base (sha256 body) (body ++ more) n (length body) 0
        (some none) parts (length-sha256 body) (sha256-All body) missing short fits small
        (omega arith) refl
        (saved (Same files) (Same files) (sent ++ asks_all name) log log name dest
          (partial_of dest dir base (sha256 body)) [] body more resume announced
          settle_nothing-Talking
          (open_new-Talking files (partial_of dest dir base (sha256 body)) plain)
          (omega (arith, small)) refl)
        (attempt-known (find_nothing-Talking files dest dir base parts several))
