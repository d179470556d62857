-- ===== src/Conversation/AnySearch.antt =====
-- `rtrv_find_partial` in any directory, without faults: nothing is printed, and a token has its size.
use retriever.Base.{
  ℕ, zero, suc, ◌+◌, ◌≡◌, refl, ap, arith, List, [], ◌∷◌, ◌++◌, ◌==◌, Option, none, some,
}
use retriever.Base.{Bool, length, take, drop}
use retriever.Os.World.{World, Bytes, Node, Message}
use retriever.Os.Program.{M, Run, ok, err, attempt, draw, drawn, pure, fail}
use retriever.Os.Files.{lookup, resolve, stat, open_dir, node_size}
use retriever.Os.Triples.{
  Settles, Contract, Contract-bind, Contract-then, Contract-if, Contract-fail,
}
use retriever.Os.Triples.{Attempted, Contract-attempt, Contract-attempt_same, Contract-weaken}
use retriever.Os.Calm.{Never, Contract-sure}
use retriever.Transfer.Path.{dir_max, max_name, path_max, token_size, split_path}
use retriever.Transfer.Partial.{Found, scan_hex, prefixed, scan_token, scan_entries}
use retriever.Transfer.Partial.{found_at, inspect_partial, find_in_dir, find_partial}
use retriever.Transfer.Get.{resume_of}
use retriever.Conversation.Frames.{Disk, Talking}
use retriever.Conversation.Local.{drawn-Talking, release-Talking}

abbrev IsToken : ℕ → Option Bytes → Type 0
IsToken n none = Unit
IsToken n (some token) = length token ≡ n

prefixed-IsToken :
    (n value : ℕ) (o : Option Bytes) → IsToken n o → IsToken (suc n) (prefixed value o)
prefixed-IsToken n value none h = tt
prefixed-IsToken n value (some token) h = omega (arith, h)

valued-IsToken :
    (n : ℕ) (o : Option ℕ) (rest : Option Bytes)
    → IsToken n rest
    → IsToken
        (suc n)
        (elim o as (λ _. Option Bytes) [ none ↦ none | some value ↦ prefixed value rest ])
valued-IsToken n none rest h = tt
valued-IsToken n (some value) rest h = prefixed-IsToken n value rest h

scan_token-IsToken : (n : ℕ) (hex : Bytes) → IsToken n (scan_token n hex)
unfolding scan_token
scan_token-IsToken zero hex = refl
scan_token-IsToken (suc n) hex =
    valued-IsToken n (scan_hex hex) (scan_token n (drop 2 hex)) (scan_token-IsToken n (drop 2 hex))

-- What is found has a token of eight bytes.
abbrev Fits : Option Found → Type 0
Fits none = Unit
Fits (some f) = length f.token ≡ 8

found_at-Fits : (path match : Bytes) (size : ℕ) → Fits (found_at path match size)
found_at-Fits path match size = step _ (scan_token-IsToken token_size _)
  where
    step :
        (o : Option Bytes)
        → IsToken token_size o
        → Fits (elim o as (λ _. Option Found) [
          | none ↦ none
          | some token ↦ some (record { path = path; size = size; token = token })
        ])
    step none h = tt
    step (some token) h = h

module _ {disk : Disk} {sent : Bytes} {log : List Message} {bytes : Bytes} where
  Settles-stated :
      (o : Option Node) (w : World)
      → Talking disk sent log bytes w
      → Settles Never
          (λ _. Talking disk sent log bytes)
          (Talking disk sent log bytes)
          (elim o as (λ _. Run Node) [
            | none ↦ err (record w { faults = drawn w.faults })
            | some node ↦ ok node (record w { faults = drawn w.faults })
          ])
  Settles-stated none w t = drawn-Talking w.handles w t
  Settles-stated (some node) w t = drawn-Talking w.handles w t

  stat_any :
      (path : Bytes)
      → Contract Never
          (Talking disk sent log bytes)
          (stat path)
          (λ _. Talking disk sent log bytes)
          (Talking disk sent log bytes)
  unfolding stat
  stat_any path = record {
    runs = λ w t.
        rw (ap (λ (fs : List Bool). draw fs) t.clear)
          (Settles-stated (lookup (resolve path) w.files) w t);
  }

  open_dir_any :
      (path : Bytes)
      → Contract Never
          (Talking disk sent log bytes)
          (open_dir path)
          (λ _. Talking disk sent log bytes)
          Never
  unfolding open_dir
  open_dir_any path = record {
    runs = λ w t. rw (ap (λ (fs : List Bool). draw fs) t.clear) (drawn-Talking _ w t);
  }

  inspect_partial_any :
      (path match : Bytes)
      → Contract Never
          (Talking disk sent log bytes)
          (inspect_partial path match)
          (λ found w. Fits found × Talking disk sent log bytes w)
          Never
  unfolding inspect_partial
  inspect_partial_any path match = Contract-bind (Contract-attempt_same (stat_any path)) looked
    where
      looked :
          (node : Option Node)
          → Contract Never
              (Talking disk sent log bytes)
              (pure (elim node as (λ _. Option Found) [
                | none ↦ none
                | some node ↦ found_at path match (node_size node)
              ]))
              (λ found w. Fits found × Talking disk sent log bytes w)
              Never
      looked none = record { runs = λ w t. (tt, t) }
      looked (some node) = record { runs = λ w t. (found_at-Fits path match (node_size node), t) }

  find_in_dir_any :
      (dest dir base : Bytes)
      → Contract Never
          (Talking disk sent log bytes)
          (find_in_dir dest path_max dir base)
          (λ found w. Fits found × Talking disk sent log bytes w)
          Never
  unfolding find_in_dir
  find_in_dir_any dest dir base = Contract-bind (open_dir_any dir) (λ names.
      let scanned : ℕ × Bytes =
        scan_entries (take (max_name + 7) (b'.' ∷ (base ++ (b'.' ∷ [])))) names 0 [] in
      Contract-then release-Talking (
        Contract-if (scanned.0 == 1) (λ _. inspect_partial_any _ scanned.1)
          (λ _. record { runs = λ w t. (tt, t) })))

  find_partial_any :
      (dest : Bytes)
      → Contract Never
          (Talking disk sent log bytes)
          (find_partial dest path_max)
          (λ found w. Fits found × Talking disk sent log bytes w)
          (Talking disk sent log bytes)
  unfolding find_partial
  find_partial_any dest = split (split_path dest dir_max (max_name + 1))
    where
      split :
          (o : Option (Bytes × Bytes))
          → Contract Never
              (Talking disk sent log bytes)
              (elim o as (λ _. M (Option Found)) [
                | none ↦ fail
                | some (dir, base) ↦ find_in_dir dest path_max dir base
              ])
              (λ found w. Fits found × Talking disk sent log bytes w)
              (Talking disk sent log bytes)
      split none = Contract-fail
      split (some (dir, base)) = Contract-sure (find_in_dir_any dest dir base)

  -- What is asked for has a token of eight bytes, whether or not something is found.
  pub searched_any :
      (dest : Bytes)
      → Contract Never
          (Talking disk sent log bytes)
          (attempt (find_partial dest path_max))
          (λ o w. (length (resume_of o).token ≡ 8) × Talking disk sent log bytes w)
          Never
  searched_any dest = Contract-weaken (Contract-attempt (find_partial_any dest)) sized
    where
      sized :
          (o : Option (Option Found)) (w : World)
          → Attempted
              (λ found w. Fits found × Talking disk sent log bytes w)
              (Talking disk sent log bytes)
              o
              w
          → (length (resume_of o).token ≡ 8) × Talking disk sent log bytes w
      sized none w t = (refl, t)
      sized (some none) w (h, t) = (refl, t)
      sized (some (some f)) w (h, t) = (h, t)
