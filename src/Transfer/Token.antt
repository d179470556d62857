-- ===== src/Transfer/Token.antt =====
-- The token in the name of a partial file: what `sha256_hex` writes is what `sscanf` reads.
use retriever.Base.{
  ℕ, zero, suc, ◌+◌, bit_and, ◌*◌, ◌/◌, ◌%◌, ◌^◌, ◌≤◌, ◌<◌, sym, ap₂, length, ◌≡◌, refl, ap, subst,
  ◌∙◌, arith, false,
}
use retriever.Base.{List, [], ◌∷◌, ◌++◌, Option, some, get_or, take, drop, All}
use retriever.Base.Bits.{bit_and-0x0f}
use retriever.Packing.Layout.{IsByte}
use retriever.Os.World.{Bytes}
use retriever.Sha256.Hex.{hex_digits, hex_loop, sha256_hex}
use retriever.Transfer.Partial.{hex_value, scan_hex, scan_token, is_space, prefixed}

abbrev digit : ℕ → ℕ
digit d = get_or hex_digits d 0

-- The sixteen digits, one by one.
abbrev Reads : ℕ → Type 0
Reads d = (hex_value (digit d) ≡ some d) × (is_space (digit d) ≡ false)

digits-Reads : All Reads (0 ∷ 1 ∷ 2 ∷ 3 ∷ 4 ∷ 5 ∷ 6 ∷ 7 ∷ 8 ∷ 9 ∷ 10 ∷ 11 ∷ 12 ∷ 13 ∷ 14 ∷ 15 ∷ [])
unfolding hex_value
digits-Reads = (
  (refl, refl),
  (
    (refl, refl),
    (
      (refl, refl),
      (
        (refl, refl),
        (
          (refl, refl),
          (
            (refl, refl),
            (
              (refl, refl),
              (
                (refl, refl),
                (
                  (refl, refl),
                  (
                    (refl, refl),
                    (
                      (refl, refl),
                      (
                        (refl, refl),
                        ((refl, refl), ((refl, refl), ((refl, refl), ((refl, refl), tt)))),
                      ),
                    ),
                  ),
                ),
              ),
            ),
          ),
        ),
      ),
    ),
  ),
)

-- A run of numbers from `k` on.
unfoldable upto : ℕ → ℕ → List ℕ
upto zero k = []
upto (suc n) k = k ∷ upto n (suc k)

upto-All : (n k d : ℕ) → All Reads (upto n k) → k + d < k + n → Reads (k + d)
unfolding upto
upto-All zero k d h lt = absurd (omega arith)
upto-All (suc n) k zero (h, hs) lt = subst Reads (omega arith) h
upto-All (suc n) k (suc d) (h, hs) lt =
    subst Reads (omega arith) (upto-All n (suc k) d hs (omega arith))

digit-Reads : (d : ℕ) → d < 16 → Reads d
unfolding upto
digit-Reads d h = subst Reads (omega arith) (upto-All 16 0 d digits-Reads (omega arith))

scan_hex-pair :
    (c x d e : ℕ) (rest : Bytes)
    → is_space c ≡ false
    → hex_value c ≡ some d
    → hex_value x ≡ some e
    → scan_hex (c ∷ x ∷ rest) ≡ some (16 * d + e)
unfolding scan_hex
scan_hex-pair c x d e rest no_space hd he = ground (arith, no_space, hd, he)

scan_token-step :
    (c x b left : ℕ) (rest : Bytes)
    → scan_hex (c ∷ x ∷ rest) ≡ some b
    → scan_token (suc left) (c ∷ x ∷ rest) ≡ prefixed b (scan_token left rest)
unfolding scan_token
scan_token-step c x b left rest h = rw (h, scan_token)

-- One byte of the token.
scan_token-byte :
    (b left : ℕ) (rest : Bytes)
    → b < 256
    → scan_token (suc left) (digit (bit_and (b / 2 ^ 4) 0x0f) ∷ digit (bit_and b 0x0f) ∷ rest)
      ≡ prefixed b (scan_token left rest)
scan_token-byte b left rest h =
    let (high, high_digit) = digit-Reads (b / 16 % 16) (omega arith) in
    let (low, _) = digit-Reads (b % 16) (omega arith) in
    let whole : 16 * (b / 16 % 16) + b % 16 ≡ b = omega arith in
    ap₂ (λ (p q : ℕ). scan_token (suc left) (digit p ∷ digit q ∷ rest)) (bit_and-0x0f (b / 2 ^ 4))
      (bit_and-0x0f b)
    ∙ scan_token-step (digit (b / 16 % 16)) (digit (b % 16)) b left rest
        (scan_hex-pair _ _ _ _ rest high_digit high low ∙ ap (λ (n : ℕ). some n) whole)

take-drop_at :
    (digest : List ℕ) (i n : ℕ)
    → i < length digest
    → take (suc n) (drop i digest) ≡ get_or digest i 0 ∷ take n (drop (suc i) digest)
take-drop_at [] i n h = absurd (omega arith)
take-drop_at (x ∷ digest) zero n h = refl
take-drop_at (x ∷ digest) (suc i) n h = take-drop_at digest i n (omega arith)

All-get_or :
    (digest : List ℕ) (i : ℕ) → All IsByte digest → i < length digest → get_or digest i 0 < 256
All-get_or [] i h lt = absurd (omega arith)
All-get_or (x ∷ digest) zero (h, hs) lt = h
All-get_or (x ∷ digest) (suc i) (h, hs) lt = All-get_or digest i hs (omega arith)

scan_token-hex_loop :
    (left i : ℕ) (digest rest : List ℕ)
    → All IsByte digest
    → i + left ≤ length digest
    → scan_token left (hex_loop left i digest ++ rest) ≡ some (take left (drop i digest))
unfolding hex_loop
scan_token-hex_loop zero i digest rest bytes h = unfold scan_token in refl
scan_token-hex_loop (suc left) i digest rest bytes h =
    let b : ℕ = get_or digest i 0 in
    let small : b < 256 = All-get_or digest i bytes (omega arith) in
    let same : b % 2 ^ 8 ≡ b = omega arith in
    scan_token-byte b left (hex_loop left (suc i) digest ++ rest) small
    ∙ ap (λ (o : Option Bytes). prefixed b o)
        (scan_token-hex_loop left (suc i) digest rest bytes (omega arith))
    ∙ ap (λ (n : ℕ). some (n ∷ take left (drop (suc i) digest))) same
    ∙ ap (λ (t : Bytes). some t) (sym (take-drop_at digest i left (omega arith)))

-- The first bytes of a digest, written in hexadecimal into the name of a partial file, are read back
-- from the name, whatever follows them there.
pub scan_token-sha256_hex :
    (digest rest : Bytes) (n : ℕ)
    → All IsByte digest
    → n ≤ length digest
    → scan_token n (sha256_hex digest n ++ rest) ≡ some (take n digest)
unfolding sha256_hex
scan_token-sha256_hex digest rest n bytes h =
    scan_token-hex_loop n 0 digest rest bytes (omega arith)
