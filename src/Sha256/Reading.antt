-- ===== src/Sha256/Reading.antt =====
-- `sha256_file` gives the hash of the file's contents.
use retriever.Base.{
  ℕ, zero, suc, ◌<◌, ◌≡◌, refl, ◌∙◌, sym, ap, subst, Bool, true, false, Bool-cases, inl, inr,
}
use retriever.Base.{List, [], ◌∷◌, ◌++◌, append-nil, append_assoc, some, arith, length}
use retriever.Base.{
  take, drop, take-append-drop, length-drop, replicate, length-take, length-append,
  length-replicate, if◌then◌else◌,
}
use retriever.Os.World.{World, Bytes, Key, Node, regular}
use retriever.Os.Program.{◌>>=◌, pure, fail, draw, drawn, local_array}
use retriever.Os.Files.{Stream, fread, lookup, resolve, open_read, release}
use retriever.Os.Triples.{Ends, Ends-bind}
use retriever.Sha256.Context.{Ctx, sha256_init, sha256_update, sha256_final}
use retriever.Sha256.Padding.{sha256}
use retriever.Sha256.Streaming.{Fed, Fed-init, Fed-update, Fed-final}
use retriever.Sha256.File.{buf_size, hash_loop, finish_hash, sha256_file}

-- The files as they were, and all of the stream taken in, unless a read failed.
abbrev pub Hashed : List (Key × Node) → List ℕ → Ctx × Stream → World → Type 0
Hashed files msg r w = (w.files ≡ files) × (r.1.failed ≡ false → Fed r.0 msg)

pub hash_loop-Hashed :
    (E : World → Type 0) (fuel : ℕ) (ctx : Ctx) (rest msg : List ℕ) (w : World)
    → length rest < fuel
    → Fed ctx msg
    → Ends
        (Hashed w.files (msg ++ rest))
        E
        (hash_loop fuel ctx (record { rest = rest; failed = false }) w)
unfolding hash_loop fread
hash_loop-Hashed E zero ctx rest msg w h fed = absurd (omega arith)
hash_loop-Hashed E (suc fuel) ctx [] msg w h fed = elim (Bool-cases (draw w.faults)) [
  | inl e ↦ rw (e, Ends) (refl, λ clear. absurd (ground arith))
  | inr e ↦ rw (e, Ends) (refl, λ clear. rw append-nil fed)
]
hash_loop-Hashed E (suc fuel) ctx (b ∷ bs) msg w h fed = elim (Bool-cases (draw w.faults)) [
  | inl e ↦ rw (e, Ends) (refl, λ clear. absurd (ground arith))
  | inr e ↦
      rw (e, Ends)
        (subst
          (λ (m : List ℕ). Ends (Hashed w.files m) E (
            hash_loop fuel (sha256_update ctx (take buf_size (b ∷ bs)))
              (record { rest = drop buf_size (b ∷ bs); failed = false })
              (record w { faults = drawn w.faults })))
          (append_assoc msg (take buf_size (b ∷ bs)) (drop buf_size (b ∷ bs))
            ∙ ap (λ (r : List ℕ). msg ++ r) (take-append-drop buf_size (b ∷ bs)))
          (hash_loop-Hashed E fuel (sha256_update ctx (take buf_size (b ∷ bs))) _ _ _
            (omega (arith, length-drop buf_size (b ∷ bs)))
            (Fed-update ctx (take buf_size (b ∷ bs)) msg fed)))
]

-- The files as they were, and the hash of the file at a place.
abbrev pub HashOf : Key → List (Key × Node) → Bytes → World → Type 0
HashOf k files digest w =
    (w.files ≡ files) × ((c : Bytes) × ((lookup k files ≡ some (regular c)) × (digest ≡ sha256 c)))

-- The files as they were.
abbrev pub SameFiles : List (Key × Node) → World → Type 0
SameFiles files w = w.files ≡ files

module _ (k : Key) (files : List (Key × Node)) (c : Bytes)
    (stored : lookup k files ≡ some (regular c)) where
  Lands-finish :
      (failed : Bool) (ctx : Ctx) (w : World)
      → w.files ≡ files
      → (failed ≡ false → Fed ctx c)
      → Ends
          (HashOf k files)
          (SameFiles files)
          ((if failed then fail else pure (sha256_final ctx)) w)
  Lands-finish true ctx w same fed = same
  Lands-finish false ctx w same fed = (same, (c, (stored, Fed-final ctx c (fed refl))))

  finish-HashOf :
      (r : Ctx × Stream) (w : World)
      → Hashed files c r w
      → Ends (HashOf k files) (SameFiles files) (finish_hash r w)
  unfolding release
  finish-HashOf (ctx, f) w (same, fed) = Lands-finish f.failed ctx _ same fed

pub local_array-room : (n : ℕ) (w : World) → length (local_array n w) ≡ n
local_array-room n w = omega (
  arith,
  length-take n (w.stack ++ replicate n 0),
  length-append w.stack (replicate n 0),
  length-replicate {A = ℕ} n 0,
)

-- An opened stream stands at the beginning of its file.
abbrev Opened : Key → List (Key × Node) → Stream → World → Type 0
Opened k files f w =
    (w.files ≡ files) × (f.failed ≡ false) × (lookup k files ≡ some (regular f.rest))

open_read-Opened :
    (path : Bytes) (w : World)
    → Ends (Opened (resolve path) w.files) (SameFiles w.files) (open_read path w)
unfolding open_read
open_read-Opened path w = ground arith

hashed-HashOf :
    (k : Key) (files : List (Key × Node)) (f : Stream) (w : World)
    → Opened k files f w
    → Ends (HashOf k files) (SameFiles files) (
        ((λ w. hash_loop (suc (length f.rest)) (sha256_init (local_array 64 w)) f w)
            >>= finish_hash)
          w)
hashed-HashOf k files f w (same, clear, stored) =
    let context : Ctx = sha256_init (local_array 64 w) in
    let loop =
      hash_loop-Hashed (SameFiles files) (suc (length f.rest)) context f.rest [] w (omega arith)
        (Fed-init _ (local_array-room 64 w)) in
    let flagged =
      subst
        (λ (b : Bool).
          Ends (Hashed w.files f.rest) (SameFiles files)
            (hash_loop (suc (length f.rest)) context (record { rest = f.rest; failed = b }) w))
        (sym clear) loop in
    Ends-bind (Hashed files f.rest) (HashOf k files) (SameFiles files) finish_hash _
      (subst
        (λ (fs : List (Key × Node)).
          Ends (Hashed fs f.rest) (SameFiles files) (hash_loop (suc (length f.rest)) context f w))
        same flagged)
      (finish-HashOf k files f.rest stored) w

-- Whatever the faults, `sha256_file` ends, and changes no file; a digest that it gives is the
-- SHA-256 of the contents of the regular file at the path, and it was read to its end.
pub sha256_file-HashOf :
    (path : Bytes) (w : World)
    → Ends (HashOf (resolve path) w.files) (SameFiles w.files) (sha256_file path w)
unfolding sha256_file
sha256_file-HashOf path w =
    Ends-bind (Opened (resolve path) w.files) (HashOf (resolve path) w.files) (SameFiles w.files) _
      (open_read path w) (open_read-Opened path w) (hashed-HashOf (resolve path) w.files) w
