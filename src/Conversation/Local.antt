-- ===== src/Conversation/Local.antt =====
-- What GET and PUT ask of a path, without faults: the local file of PUT, nothing at the destination.
use retriever.Base.{ℕ, ◌≡◌, refl, ap, sym, subst, Bool, false, List, some}
use retriever.Base.{length, take, drop, Option, none, true}
use retriever.Os.World.{World, Bytes, Key, Node, Message, regular, not_found_locally}
use retriever.Os.Program.{draw, drawn, say, attempt, pure}
use retriever.Os.Files.{Stream, lookup, resolve, stat, open_read, fread, seek, release}
use retriever.Os.Triples.{Settles, Contract, Contract-bind, Contract-known, Contract-on_error}
use retriever.Os.Calm.{needless, Never, drawn-none}
use retriever.Sha256.Padding.{sha256}
use retriever.Sha256.File.{sha256_file}
use retriever.Sha256.Success.{calm, sha256_file-sha256}
use retriever.Transfer.Put.{local_size}
use retriever.Transfer.Partial.{file_exists}
use retriever.Transfer.Get.Replied.{stat_missing}
use retriever.Conversation.Frames.{Disk, Talking}

-- A regular file stands at a path.
abbrev pub Stores : Disk → Bytes → Bytes → Type 0
Stores disk path c =
    (fs : List (Key × Node)) → disk fs → lookup (resolve path) fs ≡ some (regular c)

module _ {disk : Disk} {sent : Bytes} {log : List Message} {bytes : Bytes} where
  -- A call of stdio, which takes one entry of `faults` at most.
  pub drawn-Talking :
      (n : ℕ) (w : World)
      → Talking disk sent log bytes w
      → Talking disk sent log bytes (record w { faults = drawn w.faults; handles = n })
  drawn-Talking n w t = record {
    stored = t.stored;
    said = t.said;
    shown = t.shown;
    clear = drawn-none t.clear;
    sound = t.sound;
    comes = t.comes;
  }

  pub release-Talking :
      Contract Never (Talking disk sent log bytes) release (λ _. Talking disk sent log bytes) Never
  unfolding release
  release-Talking = record {
    runs = λ w t. record {
      stored = t.stored;
      said = t.said;
      shown = t.shown;
      clear = t.clear;
      sound = t.sound;
      comes = t.comes;
    };
  }

  pub fread-Talking :
      (n : ℕ) (f : Stream)
      → Contract Never
          (Talking disk sent log bytes)
          (fread n f)
          (λ r w.
            (r ≡ (take n f.rest, record f { rest = drop n f.rest }))
            × Talking disk sent log bytes w)
          Never
  unfolding fread
  fread-Talking n f = record {
    runs = λ w t. rw (ap (λ (fs : List Bool). draw fs) t.clear) (refl, drawn-Talking w.handles w t);
  }

  pub seek-Talking :
      (offset : ℕ) (f : Stream)
      → Contract Never
          (Talking disk sent log bytes)
          (seek offset f)
          (λ f' w. (f' ≡ record f { rest = drop offset f.rest }) × Talking disk sent log bytes w)
          Never
  unfolding seek
  seek-Talking offset f = record {
    runs = λ w t. rw (ap (λ (fs : List Bool). draw fs) t.clear) (refl, drawn-Talking w.handles w t);
  }

  module _ (path c : Bytes) (held : Stores disk path c) where
    pub stat-Talking :
        Contract Never
          (Talking disk sent log bytes)
          (stat path)
          (λ node w. (node ≡ regular c) × Talking disk sent log bytes w)
          Never
    unfolding stat
    stat-Talking = record {
      runs = λ w t.
          rw (ap (λ (fs : List Bool). draw fs) t.clear, held w.files t.stored)
            (refl, drawn-Talking w.handles w t);
    }

    pub local_size-Talking :
        Contract Never
          (Talking disk sent log bytes)
          (local_size path)
          (λ n w. (n ≡ length c) × Talking disk sent log bytes w)
          Never
    unfolding local_size
    local_size-Talking =
        Contract-known _ (Contract-on_error stat-Talking (needless (say (not_found_locally path))))
          (record { runs = λ w t. (refl, t) })

    pub open_read-Talking :
        Contract Never
          (Talking disk sent log bytes)
          (open_read path)
          (λ f w. (f ≡ record { rest = c; failed = false }) × Talking disk sent log bytes w)
          Never
    unfolding open_read
    open_read-Talking = record {
      runs = λ w t.
          rw (ap (λ (fs : List Bool). draw fs) t.clear, held w.files t.stored)
            (refl, drawn-Talking _ w t);
    }

    pub sha256_file-Talking :
        Contract Never
          (Talking disk sent log bytes)
          (sha256_file path)
          (λ digest w. (digest ≡ sha256 c) × Talking disk sent log bytes w)
          Never
    sha256_file-Talking = record {
      runs = λ w t.
          let same : w ≡ calm w = ap (λ (f : List Bool). record w { faults = f }) t.clear in
          subst
            (λ (v : World).
              Settles Never (λ d w'. (d ≡ sha256 c) × Talking disk sent log bytes w') Never
                (sha256_file path v))
            (sym same)
            (rw (sha256_file-sha256 path c w (held w.files t.stored))
              (refl, subst (λ (v : World). Talking disk sent log bytes v) same t));
    }

-- A path where nothing is.
module _ {disk : Disk} {sent : Bytes} {log : List Message} {bytes : Bytes} where
  pub file_exists-Talking :
      (path : Bytes)
      → ((fs : List (Key × Node)) → disk fs → lookup (resolve path) fs ≡ none)
      → Contract Never
          (Talking disk sent log bytes)
          (file_exists path)
          (λ exists w. (exists ≡ false) × Talking disk sent log bytes w)
          Never
  unfolding file_exists
  file_exists-Talking path missing = Contract-bind absent found
    where
      absent :
          Contract Never
            (Talking disk sent log bytes)
            (attempt (stat path))
            (λ o w. (o ≡ none) × Talking disk sent log bytes w)
            Never
      absent = record {
        runs = λ w t.
            rw (stat_missing path w t.clear (missing w.files t.stored), attempt)
              (refl, drawn-Talking w.handles w t);
      }

      found :
          (o : Option Node)
          → Contract Never
              (λ w. (o ≡ none) × Talking disk sent log bytes w)
              (pure (elim o as (λ _. Bool) [ none ↦ false | some node ↦ true ]))
              (λ exists w. (exists ≡ false) × Talking disk sent log bytes w)
              Never
      found none = record { runs = λ w (e, t). (refl, t) }
      found (some node) = record { runs = λ w (e, t). absurd cc }
