-- ===== src/Sha256/Keeping.antt =====
-- What holds while a file is open for hashing holds when it is hashed; the size of a hash.
use retriever.Base.{
  ℕ, zero, suc, ◌*◌, ◌≡◌, refl, arith, List, [], ◌∷◌, foldl, length, length-append,
}
use retriever.Os.World.{World, Bytes}
use retriever.Os.Program.{M, Run, ok, err, waits}
use retriever.Os.Files.{Stream, open_read, fread, release}
use retriever.Os.Triples.{
  Triple, Lands, Contract-bind, Contract-then, Contract-pure, Contract-fail, Contract-if,
}
use retriever.Packing.Layout.{length-big_endian}
use retriever.Sha256.Block.{sha256_block}
use retriever.Sha256.Context.{Ctx, initial_state, sha256_update}
use retriever.Sha256.Padding.{sha256, hash_words, words_bytes}
use retriever.Sha256.File.{buf_size, hash_loop, finish_hash, sha256_file}

module _ {I : World → Type 0} {E : World → Type 0} where
  Lands-round :
      (more : Ctx → Stream → M (Ctx × Stream)) (ctx : Ctx)
      → ((c : Ctx) (f : Stream) → Triple I (more c f) (λ _. I) E)
      → (r : Run (Bytes × Stream)) → Lands (λ _. I) E r
      → Lands
          (λ _. I)
          E
          (elim r as (λ _. Run (Ctx × Stream)) [
            | ok ([], s') w' ↦ ok (ctx, s') w'
            | ok (c ∷ bytes, s') w' ↦ more (sha256_update ctx (c ∷ bytes)) s' w'
            | err w' ↦ err w'
            | waits w' ↦ waits w'
          ])
  Lands-round more ctx t (ok ([], s') w') l = l
  Lands-round more ctx t (ok (c ∷ bytes, s') w') l = (t _ s').runs w' l
  Lands-round more ctx t (err w') l = l
  Lands-round more ctx t (waits w') l = l

  pub hash_loop-keeps :
      ((n : ℕ) (f : Stream) → Triple I (fread n f) (λ _. I) E)
      → (fuel : ℕ) (ctx : Ctx) (f : Stream) → Triple I (hash_loop fuel ctx f) (λ _. I) E
  unfolding hash_loop
  hash_loop-keeps reads zero ctx f = record { runs = λ w u. tt }
  hash_loop-keeps reads (suc fuel) ctx f = record {
    runs = λ w u.
        Lands-round (hash_loop fuel) ctx (hash_loop-keeps reads fuel) (fread buf_size f w)
          ((reads buf_size f).runs w u);
  }

module _ {I J : World → Type 0} where
  finish_hash-keeps :
      Triple J release (λ _. I) I → (r : Ctx × Stream) → Triple J (finish_hash r) (λ _. I) I
  finish_hash-keeps closes (ctx, f) =
      Contract-then closes (Contract-if f.failed (λ _. Contract-fail) (λ _. Contract-pure))

  -- `J` is what `I` becomes while the file is open.
  pub sha256_file-keeps :
      (path : Bytes)
      → Triple I (open_read path) (λ _. J) I
      → ((n : ℕ) (f : Stream) → Triple J (fread n f) (λ _. J) I)
      → Triple J release (λ _. I) I
      → Triple I (sha256_file path) (λ _. I) I
  unfolding sha256_file
  sha256_file-keeps path opens reads closes = Contract-bind opens (λ f.
      Contract-bind (record { runs = λ w. (hash_loop-keeps reads _ _ f).runs w })
        (finish_hash-keeps closes))

length-compress :
    (state : List ℕ) (blocks : List (List ℕ))
    → length state ≡ 8
    → length (foldl sha256_block state blocks) ≡ 8
unfolding sha256_block
length-compress state [] h = h
length-compress state (b ∷ blocks) h = length-compress (sha256_block state b) blocks refl

length-words_bytes : (ws : List ℕ) → length (words_bytes ws) ≡ 4 * length ws
unfolding words_bytes
length-words_bytes [] = refl
length-words_bytes (w ∷ ws) =
    omega (arith, length-append _ (words_bytes ws), length-big_endian 4 w, length-words_bytes ws)

pub length-sha256 : (msg : List ℕ) → length (sha256 msg) ≡ 32
unfolding sha256 hash_words
length-sha256 msg =
    omega (arith, length-words_bytes (hash_words msg), length-compress initial_state _ refl)
