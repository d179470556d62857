-- ===== src/Sha256/Block.antt =====
-- c/sha256.c, the macros and `sha256_block`: one 64-byte block into the eight state words.
use retriever.Base.{ℕ, zero, suc, ◌+◌, ◌-◌, ◌*◌, ◌/◌, ◌%◌, ◌^◌, bit_and, bit_or, bit_xor}
use retriever.Base.{List, [], ◌∷◌, ◌++◌, get_or}

-- `x >> n` is `x / 2 ^ n`, and `x << n` on a `uint32_t` keeps the low 32 bits.
unfoldable pub rotr : ℕ → ℕ → ℕ
rotr x n = bit_or (x / 2 ^ n) (x * 2 ^ (32 - n) % 2 ^ 32)

-- `~x` on a `uint32_t`.
unfoldable pub complement : ℕ → ℕ
complement x = 2 ^ 32 - 1 - x

unfoldable pub ch : ℕ → ℕ → ℕ → ℕ
ch x y z = bit_xor (bit_and x y) (bit_and (complement x) z)

unfoldable pub maj : ℕ → ℕ → ℕ → ℕ
maj x y z = bit_xor (bit_xor (bit_and x y) (bit_and x z)) (bit_and y z)

unfoldable pub bsig0 : ℕ → ℕ
bsig0 x = bit_xor (bit_xor (rotr x 2) (rotr x 13)) (rotr x 22)

unfoldable pub bsig1 : ℕ → ℕ
bsig1 x = bit_xor (bit_xor (rotr x 6) (rotr x 11)) (rotr x 25)

unfoldable pub ssig0 : ℕ → ℕ
ssig0 x = bit_xor (bit_xor (rotr x 7) (rotr x 18)) (x / 2 ^ 3)

unfoldable pub ssig1 : ℕ → ℕ
ssig1 x = bit_xor (bit_xor (rotr x 17) (rotr x 19)) (x / 2 ^ 10)

-- `a + b` on `uint32_t`.
abbrev pub add32 : ℕ → ℕ → ℕ
add32 a b = (a + b) % 2 ^ 32

abbrev pub round_constants : List ℕ
round_constants =
    0x428a2f98 ∷ 0x71374491 ∷ 0xb5c0fbcf ∷ 0xe9b5dba5 ∷ 0x3956c25b ∷ 0x59f111f1 ∷ 0x923f82a4
    ∷ 0xab1c5ed5 ∷ 0xd807aa98 ∷ 0x12835b01 ∷ 0x243185be ∷ 0x550c7dc3 ∷ 0x72be5d74 ∷ 0x80deb1fe
    ∷ 0x9bdc06a7 ∷ 0xc19bf174 ∷ 0xe49b69c1 ∷ 0xefbe4786 ∷ 0x0fc19dc6 ∷ 0x240ca1cc ∷ 0x2de92c6f
    ∷ 0x4a7484aa ∷ 0x5cb0a9dc ∷ 0x76f988da ∷ 0x983e5152 ∷ 0xa831c66d ∷ 0xb00327c8 ∷ 0xbf597fc7
    ∷ 0xc6e00bf3 ∷ 0xd5a79147 ∷ 0x06ca6351 ∷ 0x14292967 ∷ 0x27b70a85 ∷ 0x2e1b2138 ∷ 0x4d2c6dfc
    ∷ 0x53380d13 ∷ 0x650a7354 ∷ 0x766a0abb ∷ 0x81c2c92e ∷ 0x92722c85 ∷ 0xa2bfe8a1 ∷ 0xa81a664b
    ∷ 0xc24b8b70 ∷ 0xc76c51a3 ∷ 0xd192e819 ∷ 0xd6990624 ∷ 0xf40e3585 ∷ 0x106aa070 ∷ 0x19a4c116
    ∷ 0x1e376c08 ∷ 0x2748774c ∷ 0x34b0bcb5 ∷ 0x391c0cb3 ∷ 0x4ed8aa4a ∷ 0x5b9cca4f ∷ 0x682e6ff3
    ∷ 0x748f82ee ∷ 0x78a5636f ∷ 0x84c87814 ∷ 0x8cc70208 ∷ 0x90befffa ∷ 0xa4506ceb ∷ 0xbef9a3f7
    ∷ 0xc67178f2 ∷ []

-- `w[i]` for `i` below 16, big-endian from the block.
unfoldable pub block_word : List ℕ → ℕ → ℕ
block_word block i =
    bit_or
      (bit_or
        (bit_or (get_or block (i * 4) 0 * 2 ^ 24 % 2 ^ 32)
          (get_or block (i * 4 + 1) 0 * 2 ^ 16 % 2 ^ 32))
        (get_or block (i * 4 + 2) 0 * 2 ^ 8 % 2 ^ 32))
      (get_or block (i * 4 + 3) 0)

-- `w[i]` for `i` from 16 on.
unfoldable pub expanded_word : List ℕ → ℕ → ℕ
expanded_word w i =
    add32
      (add32 (add32 (ssig1 (get_or w (i - 2) 0)) (get_or w (i - 7) 0))
        (ssig0 (get_or w (i - 15) 0)))
      (get_or w (i - 16) 0)

-- The two loops that fill `w` in order, each with its rounds left; `w` holds what is written.
unfoldable pub load_words : ℕ → ℕ → List ℕ → List ℕ → List ℕ
load_words zero i block w = w
load_words (suc left) i block w = load_words left (suc i) block (w ++ (block_word block i ∷ []))

unfoldable pub expand_words : ℕ → ℕ → List ℕ → List ℕ
expand_words zero i w = w
expand_words (suc left) i w = expand_words left (suc i) (w ++ (expanded_word w i ∷ []))

-- The working variables of the 64 rounds.
pub record Working : Type 0 where
  pub a : ℕ
  pub b : ℕ
  pub c : ℕ
  pub d : ℕ
  pub e : ℕ
  pub f : ℕ
  pub g : ℕ
  pub h : ℕ

unfoldable pub round : List ℕ → ℕ → Working → Working
round w i v =
    let t1 =
      add32 (add32 (add32 (add32 v.h (bsig1 v.e)) (ch v.e v.f v.g)) (get_or round_constants i 0))
        (get_or w i 0) in
    let t2 = add32 (bsig0 v.a) (maj v.a v.b v.c) in
    record {
      a = add32 t1 t2;
      b = v.a;
      c = v.b;
      d = v.c;
      e = add32 v.d t1;
      f = v.e;
      g = v.f;
      h = v.g;
    }

unfoldable pub rounds : ℕ → ℕ → List ℕ → Working → Working
rounds zero i w v = v
rounds (suc left) i w v = rounds left (suc i) w (round w i v)

abbrev working_of : List ℕ → Working
working_of state = record {
  a = get_or state 0 0;
  b = get_or state 1 0;
  c = get_or state 2 0;
  d = get_or state 3 0;
  e = get_or state 4 0;
  f = get_or state 5 0;
  g = get_or state 6 0;
  h = get_or state 7 0;
}

-- The final additions, `ctx->state[0] += a` and so on.
abbrev add_back : List ℕ → Working → List ℕ
add_back state v =
    add32 (get_or state 0 0) v.a
    ∷ add32 (get_or state 1 0) v.b
    ∷ add32 (get_or state 2 0) v.c
    ∷ add32 (get_or state 3 0) v.d
    ∷ add32 (get_or state 4 0) v.e
    ∷ add32 (get_or state 5 0) v.f
    ∷ add32 (get_or state 6 0) v.g
    ∷ add32 (get_or state 7 0) v.h
    ∷ []

-- `sha256_block` on the state words and the 64 bytes of the block.
unfoldable pub sha256_block : List ℕ → List ℕ → List ℕ
sha256_block state block =
    let w = expand_words 48 16 (load_words 16 0 block []) in
    add_back state (rounds 64 0 w (working_of state))
