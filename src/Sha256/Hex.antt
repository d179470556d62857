-- ===== src/Sha256/Hex.antt =====
-- c/sha256.c, `sha256_hex`.
use retriever.Base.{ℕ, zero, suc, ◌/◌, ◌^◌, bit_and, List, [], ◌∷◌, get_or}

abbrev pub hex_digits : List ℕ
hex_digits =
    b'0' ∷ b'1' ∷ b'2' ∷ b'3' ∷ b'4' ∷ b'5' ∷ b'6' ∷ b'7' ∷ b'8' ∷ b'9' ∷ b'a' ∷ b'b' ∷ b'c' ∷ b'd'
    ∷ b'e' ∷ b'f' ∷ []

-- The loop at index `i` with `left` rounds to go; the result is a string, its zero not counted.
unfoldable pub hex_loop : ℕ → ℕ → List ℕ → List ℕ
hex_loop zero i digest = []
hex_loop (suc left) i digest =
    get_or hex_digits (bit_and (get_or digest i 0 / 2 ^ 4) 0x0f) 0
    ∷ get_or hex_digits (bit_and (get_or digest i 0) 0x0f) 0
    ∷ hex_loop left (suc i) digest

unfoldable pub sha256_hex : List ℕ → ℕ → List ℕ
sha256_hex digest len = hex_loop len 0 digest
