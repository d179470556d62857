-- ===== src/Packing.antt =====
-- c/frame.c, the byte packing: big-endian integers written into and read out of a buffer.
-- A pointer into a buffer is the buffer with an offset.
pub mod Layout
pub mod RoundTrip
pub mod Inverse
use retriever.Base.{ℕ, zero, suc, ◌+◌, ◌-◌, ◌*◌, ◌/◌, ◌%◌, ◌^◌, bit_and, bit_or, List}
use retriever.Base.{set, get_or}

-- `(unsigned char)((value >> shift) & 0xFF)`
abbrev pub byte_at : ℕ → ℕ → ℕ
byte_at value shift = bit_and (value / 2 ^ shift) 0xff % 2 ^ 8

unfoldable pub put_u16 : List ℕ → ℕ → ℕ → List ℕ
put_u16 dst off value = set (set dst off (byte_at value 8)) (suc off) (byte_at value 0)

-- The loop of `put_u64` with `left` rounds to go, at index `i`; `off` is `i` into the buffer.
put_u64_loop : ℕ → ℕ → List ℕ → ℕ → ℕ → List ℕ
put_u64_loop zero i dst off value = dst
put_u64_loop (suc left) i dst off value =
    put_u64_loop left (suc i) (set dst off (byte_at value (56 - 8 * i))) (suc off) value

unfoldable pub put_u64 : List ℕ → ℕ → ℕ → List ℕ
unfolding put_u64_loop
put_u64 dst off value = put_u64_loop 8 0 dst off value

unfoldable pub get_u16 : List ℕ → ℕ → ℕ
get_u16 src off = bit_or (get_or src off 0 * 2 ^ 8) (get_or src (suc off) 0) % 2 ^ 16

-- `value << 8` drops the top byte of a 64-bit value.
get_u64_loop : ℕ → List ℕ → ℕ → ℕ → ℕ
get_u64_loop zero src off value = value
get_u64_loop (suc left) src off value =
    get_u64_loop left src (suc off) (bit_or (value * 2 ^ 8 % 2 ^ 64) (get_or src off 0))

unfoldable pub get_u64 : List ℕ → ℕ → ℕ
unfolding get_u64_loop
get_u64 src off = get_u64_loop 8 src off 0
