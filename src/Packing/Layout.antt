-- ===== src/Packing/Layout.antt =====
-- What the packing functions write and read, against an arithmetic description of big-endian.
use retriever.Base.{ℕ, zero, suc, ◌+◌, ◌*◌, ◌/◌, ◌%◌, ◌^◌, ◌≤◌, ◌<◌, bit_or, ◌≡◌, refl, ap}
use retriever.Base.{List, [], ◌∷◌, arith, length, take, drop, get_or, All, ◌∙◌}
use retriever.Base.Bits.{bit_and-0xff, bit_or-shifted}
use native.Mathlib.Nat.{div-div-eq-div-mul, div-eq_of_lt}
use native.Mathlib.Numerals.{towards_suc}
use retriever.Base.Memory.{memcpy}
use retriever.Packing.{byte_at, put_u16, put_u64, get_u16, get_u64_loop, get_u64}

-- The `k` bytes of `v`, most significant first.
unfoldable pub big_endian : ℕ → ℕ → List ℕ
big_endian zero v = []
big_endian (suc k) v = (v / 2 ^ (8 * k) % 256) ∷ big_endian k v

-- The number that the bytes stand for.
unfoldable pub from_big_endian : ℕ → List ℕ → ℕ
from_big_endian acc [] = acc
from_big_endian acc (b ∷ bs) = from_big_endian (acc * 256 + b) bs

abbrev pub IsByte : ℕ → Type 0
IsByte b = b < 256

pub length-big_endian : (k v : ℕ) → length (big_endian k v) ≡ k
unfolding big_endian
length-big_endian zero v = refl
length-big_endian (suc k) v = omega (arith, length-big_endian k v)

pub big_endian-All : (k v : ℕ) → All IsByte (big_endian k v)
unfolding big_endian
big_endian-All zero v = tt
big_endian-All (suc k) v = (omega arith, big_endian-All k v)

pub byte_at-eq : (v s : ℕ) → byte_at v s ≡ v / 2 ^ s % 256
byte_at-eq v s = omega (arith, bit_and-0xff (v / 2 ^ s))

pub put_u64-memcpy :
    (dst : List ℕ) (off v : ℕ) → put_u64 dst off v ≡ memcpy dst off (big_endian 8 v)
unfolding put_u64 memcpy big_endian
put_u64-memcpy dst off v = simp byte_at-eq

pub put_u16-memcpy :
    (dst : List ℕ) (off v : ℕ) → put_u16 dst off v ≡ memcpy dst off (big_endian 2 v)
unfolding put_u16 memcpy big_endian
put_u16-memcpy dst off v = simp byte_at-eq

-- What `value` may be with `left` bytes to come, so that the shifts lose nothing.
cap : ℕ → ℕ
cap zero = 2 ^ 64
cap (suc left) = cap left / 256

cap-le : (left : ℕ) → cap left ≤ 2 ^ 64
unfolding cap
cap-le zero = omega arith
cap-le (suc left) = omega (arith, cap-le left)

shift_in :
    (value b : ℕ)
    → value * 256 < 2 ^ 64
    → b < 256
    → bit_or (value * 2 ^ 8 % 2 ^ 64) b ≡ value * 256 + b
shift_in value b h hb =
    let fits : value * 2 ^ 8 % 2 ^ 64 ≡ value * 2 ^ 8 = omega arith in
    rw fits (bit_or-shifted 8 value b (omega arith))

get_or_byte : (src : List ℕ) (i : ℕ) → All IsByte src → get_or src i 0 < 256
get_or_byte [] i h = omega arith
get_or_byte (b ∷ bs) zero (h, hs) = h
get_or_byte (b ∷ bs) (suc i) (h, hs) = get_or_byte bs i hs

-- Reading byte by byte from an offset is reading the segment.
drop_step :
    (src : List ℕ) (off n : ℕ) (acc : ℕ)
    → off < length src
    → from_big_endian acc (take (suc n) (drop off src))
      ≡ from_big_endian (acc * 256 + get_or src off 0) (take n (drop (suc off) src))
unfolding from_big_endian
drop_step [] off n acc h = absurd (omega arith)
drop_step (b ∷ bs) zero n acc h = refl
drop_step (b ∷ bs) (suc off) n acc h = drop_step bs off n acc (omega arith)

get_u64_loop-eq :
    (left : ℕ) (src : List ℕ) (off value : ℕ)
    → All IsByte src
    → off + left ≤ length src
    → value < cap left
    → get_u64_loop left src off value ≡ from_big_endian value (take left (drop off src))
unfolding get_u64_loop from_big_endian cap
get_u64_loop-eq zero src off value bytes room small = refl
get_u64_loop-eq (suc left) src off value bytes room small =
    let b : ℕ = get_or src off 0 in
    let hb : b < 256 = get_or_byte src off bytes in
    rw
      (shift_in value b (omega (arith, cap-le left)) hb, drop_step src off left value (omega arith))
      (get_u64_loop-eq left src (suc off) (value * 256 + b) bytes (omega arith) (omega arith))

-- `get_u64` is the number that the eight bytes from `off` on stand for.
pub get_u64-eq :
    (src : List ℕ) (off : ℕ)
    → All IsByte src
    → off + 8 ≤ length src
    → get_u64 src off ≡ from_big_endian 0 (take 8 (drop off src))
unfolding get_u64 cap
get_u64-eq src off bytes room = get_u64_loop-eq 8 src off 0 bytes room (omega arith)

pub get_u16-eq :
    (src : List ℕ) (off : ℕ)
    → All IsByte src
    → off + 2 ≤ length src
    → get_u16 src off ≡ from_big_endian 0 (take 2 (drop off src))
unfolding get_u16 from_big_endian
get_u16-eq src off bytes room =
    let hi : get_or src off 0 < 256 = get_or_byte src off bytes in
    let lo : get_or src (suc off) 0 < 256 = get_or_byte src (suc off) bytes in
    rw
      (
        drop_step src off 1 0 (omega arith),
        drop_step src (suc off) 0 (0 * 256 + get_or src off 0) (omega arith),
        bit_or-shifted 8 (get_or src off 0) (get_or src (suc off) 0) (omega arith),
      )
      (omega arith)

pub pow_eight : (k : ℕ) → 2 ^ (8 * suc k) ≡ 2 ^ (8 * k) * 256
pow_eight k =
    let regroup : 8 * suc k ≡ 8 * k + 8 = omega arith in rw regroup (simp towards_suc (omega arith))

big_endian_split : (v k : ℕ) → v / 2 ^ (8 * suc k) * 256 + v / 2 ^ (8 * k) % 256 ≡ v / 2 ^ (8 * k)
big_endian_split v k = rw (pow_eight k, ← div-div-eq-div-mul v (2 ^ (8 * k)) 256) (omega arith)

from_big_endian-prefix : (k v : ℕ) → from_big_endian (v / 2 ^ (8 * k)) (big_endian k v) ≡ v
unfolding from_big_endian big_endian
from_big_endian-prefix zero v = omega arith
from_big_endian-prefix (suc k) v =
    ap (λ (acc : ℕ). from_big_endian acc (big_endian k v)) (big_endian_split v k)
    ∙ from_big_endian-prefix k v

pub from_big_endian-big_endian :
    (k v : ℕ) → v < 2 ^ (8 * k) → from_big_endian 0 (big_endian k v) ≡ v
from_big_endian-big_endian k v h =
    let none_above : v / 2 ^ (8 * k) ≡ 0 = div-eq_of_lt h in
    rw none_above at (from_big_endian-prefix k v)
