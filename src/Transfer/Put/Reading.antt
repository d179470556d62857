-- ===== src/Transfer/Put/Reading.antt =====
-- What PUT reads of the local file.
use retriever.Base.{ℕ, ◌+◌, ◌<◌, ◌≡◌, refl, ◌∙◌, ap, sym, arith, false}
use retriever.Base.{Bool-cases, inl, inr, List, Option}
use retriever.Base.{some, none, length, take, drop}
use retriever.Os.World.{World, Bytes, Key, Node, regular, special, not_found_locally}
use retriever.Os.Program.{M, Run, ok, err, pure, fail, ◌>>◌, say, draw, drawn}
use retriever.Os.Files.{Stream, lookup, resolve, stat, open_read, fread, seek, release}
use retriever.Os.Triples.{Settles}
use retriever.Os.Triples.{Triple, Lands, Anything, Contract-bind}
use retriever.Os.Triples.{Contract-refuse, Contract-on_error, Contract-said}
use retriever.Os.Triples.{Contract-weaken, Contract-both}
use retriever.Sha256.Padding.{sha256}
use retriever.Sha256.File.{sha256_file}
use retriever.Sha256.Keeping.{sha256_file-keeps}
use retriever.Transfer.Get.Saving.{sha256_file-Holds}
use retriever.Transfer.Put.{local_size}
use retriever.Transfer.Put.Sending.{At}

module _ {files : List (Key × Node)} {sent : Bytes} where
  pub release-At : {E : World → Type 0} → Triple (At files sent) release (λ _. At files sent) E
  unfolding release
  release-At = record { runs = λ w u. u }

  fread-At :
      {E : World → Type 0} (n : ℕ) (f : Stream)
      → Triple (At files sent) (fread n f) (λ _. At files sent) E
  unfolding fread
  fread-At n f = record {
    runs = λ w u. elim (Bool-cases (draw w.faults)) [
      | inl e ↦ rw (e, Settles) u
      | inr e ↦ rw (e, Settles) u
    ];
  }

  Lands-opened :
      (o : Option Node) (w : World)
      → At files sent w
      → Lands
          (λ _. At files sent)
          (At files sent)
          (elim o as (λ _. Run Stream) [
            | some node ↦ elim node as (λ _. Run Stream) [
              | regular bytes ↦
                  ok
                    (record { rest = bytes; failed = false })
                    (record w { faults = drawn w.faults; handles = w.handles + 1 })
              | special size ↦ err (record w { faults = drawn w.faults })
            ]
            | none ↦ err (record w { faults = drawn w.faults })
          ])
  Lands-opened none w u = u
  Lands-opened (some (regular bytes)) w u = u
  Lands-opened (some (special size)) w u = u

  open_read-At :
      (path : Bytes) → Triple (At files sent) (open_read path) (λ _. At files sent) (At files sent)
  unfolding open_read
  open_read-At path = record {
    runs = λ w u. elim (Bool-cases (draw w.faults)) [
      | inl e ↦ rw (e, Settles) u
      | inr e ↦ rw (e, Settles) (Lands-opened (lookup (resolve path) w.files) w u)
    ];
  }

  sha256_file-At :
      (path : Bytes)
      → Triple (At files sent) (sha256_file path) (λ _. At files sent) (At files sent)
  sha256_file-At path =
      sha256_file-keeps {J = At files sent} path (open_read-At path) fread-At release-At

-- With a file at the path, the digest is the file's hash.
pub sha256_file-Digest :
    {files : List (Key × Node)} {sent : Bytes} (path c : Bytes)
    → lookup (resolve path) files ≡ some (regular c)
    → Triple
        (At files sent)
        (sha256_file path)
        (λ digest w. (digest ≡ sha256 c) × At files sent w)
        Anything
sha256_file-Digest {files} {sent} path c held = record {
  runs = λ w (same, e).
      (Contract-weaken
          (Contract-both (sha256_file-Holds path c)
            (sha256_file-At {files = files} {sent = sent} path))
          (λ digest w' ((hashed, _), at). (hashed, at))).runs
        w (ap (λ (fs : List (Key × Node)). lookup (resolve path) fs) same ∙ held, (same, e));
}

module _ (files : List (Key × Node)) (sent : Bytes) where
  -- What stands at the path.
  abbrev Found : Bytes → Node → World → Type 0
  Found path node w = (lookup (resolve path) files ≡ some node) × At files sent w

  Lands-found :
      (path : Bytes) (o : Option Node) (w : World)
      → lookup (resolve path) files ≡ o
      → At files sent w
      → Lands (Found path) Anything (elim o as (λ _. Run Node) [
        | none ↦ err (record w { faults = drawn w.faults })
        | some node ↦ ok node (record w { faults = drawn w.faults })
      ])
  Lands-found path none w e u = tt
  Lands-found path (some node) w e u = (e, u)

  stat-Found : (path : Bytes) → Triple (At files sent) (stat path) (Found path) Anything
  unfolding stat
  stat-Found path = record {
    runs = λ w u. elim (Bool-cases (draw w.faults)) [
      | inl e ↦ rw (e, Settles) tt
      | inr e ↦
          rw (e, Settles)
            (Lands-found path (lookup (resolve path) w.files) w
              (ap (λ (fs : List (Key × Node)). lookup (resolve path) fs) (sym u.0)) u)
    ];
  }

  -- The local file, which is regular, and its size.
  abbrev pub Measured : Bytes → ℕ → World → Type 0
  Measured path n w =
      (c : Bytes) × ((lookup (resolve path) files ≡ some (regular c))
        × ((n ≡ length c) × At files sent w))

  size_of-Measured :
      (path : Bytes) (node : Node)
      → Triple
          (Found path node)
          (elim node as (λ _. M ℕ) [
            | regular bytes ↦ pure (length bytes)
            | special size ↦ say (not_found_locally path) >> fail
          ])
          (Measured path)
          Anything
  size_of-Measured path (regular bytes) = record { runs = λ w (e, u). (bytes, (e, (refl, u))) }
  size_of-Measured path (special size) = Contract-refuse

  pub local_size-Measured :
      (path : Bytes) → Triple (At files sent) (local_size path) (Measured path) Anything
  unfolding local_size
  local_size-Measured path =
      Contract-bind (Contract-on_error (stat-Found path) Contract-said) (size_of-Measured path)

  pub open_read-Rest :
      (path c : Bytes)
      → lookup (resolve path) files ≡ some (regular c)
      → Triple (At files sent) (open_read path) (λ f w. (f.rest ≡ c) × At files sent w) Anything
  unfolding open_read
  open_read-Rest path c held = record {
    runs = λ w u. elim (Bool-cases (draw w.faults)) [
      | inl e ↦ rw (e, Settles) tt
      | inr e ↦
          rw (e, Settles)
            (rw (ap (λ (fs : List (Key × Node)). lookup (resolve path) fs) u.0 ∙ held) (refl, u))
    ];
  }

  pub seek-Rest :
      (offset : ℕ) (f : Stream)
      → Triple
          (At files sent)
          (seek offset f)
          (λ f' w. (f'.rest ≡ drop offset f.rest) × At files sent w)
          Anything
  unfolding seek
  seek-Rest offset f = record {
    runs = λ w u. elim (Bool-cases (draw w.faults)) [
      | inl e ↦ rw (e, Settles) tt
      | inr e ↦ rw (e, Settles) (refl, u)
    ];
  }

  -- A read of the full count gave the next bytes of the file.
  abbrev pub Piece : ℕ → Stream → Bytes × Stream → World → Type 0
  Piece n f r w =
      (length r.0 ≡ n → (r.0 ≡ take n f.rest) × (r.1.rest ≡ drop n f.rest)) × At files sent w

  pub fread-Piece :
      (n : ℕ) (f : Stream) → 0 < n → Triple (At files sent) (fread n f) (Piece n f) Anything
  unfolding fread
  fread-Piece n f positive = record {
    runs = λ w u. elim (Bool-cases (draw w.faults)) [
      | inl e ↦ rw (e, Settles) ((λ full. absurd (omega (arith, full, positive))), u)
      | inr e ↦ rw (e, Settles) ((λ full. (refl, refl)), u)
    ];
  }
