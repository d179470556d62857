-- ===== src/Sha256/Padding.antt =====
-- FIPS 180-4, section 5.1.1 and 6.2: the hash of a whole message at once, as the specification that
-- the streaming code is measured by.
use retriever.Base.{ℕ, zero, suc, ◌-◌, ◌*◌, ◌/◌, ◌%◌, ◌^◌, ◌≡◌, refl, ap, arith}
use retriever.Base.{List, [], ◌∷◌, ◌++◌, flatten, foldl, All}
use retriever.Base.{length, length-append, take, drop, replicate, take-append, drop-append}
use retriever.Packing.Layout.{big_endian}
use retriever.Sha256.Block.{sha256_block}
use retriever.Sha256.Context.{initial_state}

-- The number of zero bytes: the least that makes the whole a multiple of 64.
abbrev pub zero_count : ℕ → ℕ
zero_count n = (119 - n % 64) % 64

-- A one bit, zeros, and the length in bits.
unfoldable pub padding : ℕ → List ℕ
padding n = 0x80 ∷ (replicate (zero_count n) 0 ++ big_endian 8 (n * 8 % 2 ^ 64))

unfoldable pub pad : List ℕ → List ℕ
pad msg = msg ++ padding (length msg)

unfoldable pub blocks_of : ℕ → List ℕ → List (List ℕ)
blocks_of zero bytes = []
blocks_of (suc n) bytes = take 64 bytes ∷ blocks_of n (drop 64 bytes)

abbrev pub compress : List (List ℕ) → List ℕ
compress blocks = foldl sha256_block initial_state blocks

-- The eight state words after the padded message.
unfoldable pub hash_words : List ℕ → List ℕ
hash_words msg = let padded = pad msg in compress (blocks_of (length padded / 64) padded)

-- The digest: the words, big-endian.
unfoldable pub words_bytes : List ℕ → List ℕ
words_bytes [] = []
words_bytes (w ∷ ws) = big_endian 4 w ++ words_bytes ws

unfoldable pub sha256 : List ℕ → List ℕ
sha256 msg = words_bytes (hash_words msg)

abbrev pub IsBlock : List ℕ → Type 0
IsBlock b = length b ≡ 64

-- Cutting into blocks undoes joining them.
pub blocks_of-flatten :
    (bs : List (List ℕ)) → All IsBlock bs → blocks_of (length bs) (flatten bs) ≡ bs
unfolding blocks_of flatten
blocks_of-flatten [] h = refl
blocks_of-flatten (b ∷ bs) (h, hs) =
    rw (take-append 64 b (flatten bs) h, drop-append 64 b (flatten bs) h)
      (ap (λ r. b ∷ r) (blocks_of-flatten bs hs))

pub length-flatten : (bs : List (List ℕ)) → All IsBlock bs → length (flatten bs) ≡ 64 * length bs
unfolding flatten
length-flatten [] h = refl
length-flatten (b ∷ bs) (h, hs) =
    omega (arith, h, length-append b (flatten bs), length-flatten bs hs)
