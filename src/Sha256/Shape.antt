-- ===== src/Sha256/Shape.antt =====
-- A digest is made of bytes.
use retriever.Base.{ℕ, List, [], ◌∷◌, All, All-append}
use retriever.Packing.Layout.{big_endian, big_endian-All, IsByte}
use retriever.Sha256.Padding.{sha256, hash_words, words_bytes}

words_bytes-All : (ws : List ℕ) → All IsByte (words_bytes ws)
unfolding words_bytes
words_bytes-All [] = tt
words_bytes-All (w ∷ ws) =
    All-append IsByte (big_endian 4 w) (words_bytes ws) (big_endian-All 4 w) (words_bytes-All ws)

pub sha256-All : (msg : List ℕ) → All IsByte (sha256 msg)
unfolding sha256
sha256-All msg = words_bytes-All (hash_words msg)
