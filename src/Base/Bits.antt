-- ===== src/Base/Bits.antt =====
-- The bit operators of C on unsigned values, as arithmetic.
use Prim.Native.Nat.{ℕ, zero, suc, ◌+◌, ◌*◌, ◌/◌, ◌%◌, ◌^◌, ◌≤◌, ◌<◌, min, max, bit_and, bit_or}
use Prim.Native.Nat.{digits, bit_and-bitwise, bit_or-bitwise}
use mathlib.Core.Path.{◌≡◌, refl}
use native.Mathlib.Nat.{pow-succ'}
use native.Mathlib.Omega.{arith}

-- The recursion on binary digits under the native operators gives the same for any fuel that
-- covers the first number.
module _ (rest : ℕ → ℕ) (op : ℕ → ℕ → ℕ) where
  digits_enough :
      (x y fuel more : ℕ) → x ≤ fuel → x ≤ more → digits rest op fuel x y ≡ digits rest op more x y
  digits_enough (suc x) y (suc fuel) (suc more) h k =
      rw (digits_enough (suc x / 2) (y / 2) fuel more (omega (arith, h)) (omega (arith, k)))
  digits_enough (suc x) y zero more h k = absurd (omega (arith, h))
  digits_enough (suc x) y (suc fuel) zero h k = absurd (omega (arith, k))
  digits_enough zero y zero zero h k = refl
  digits_enough zero y zero (suc more) h k = refl
  digits_enough zero y (suc fuel) zero h k = refl
  digits_enough zero y (suc fuel) (suc more) h k = refl

  -- The number halved needs no more fuel than the number less one.
  digits_halved :
      (x y : ℕ)
      → digits rest op x (suc x / 2) (y / 2) ≡ digits rest op (suc x / 2) (suc x / 2) (y / 2)
  digits_halved x y = digits_enough (suc x / 2) (y / 2) x (suc x / 2) (omega arith) (omega arith)

or_step : (x y : ℕ) → bit_or x y ≡ max (x % 2) (y % 2) + 2 * bit_or (x / 2) (y / 2)
or_step zero y = omega (arith, bit_or-bitwise 0 y, bit_or-bitwise 0 (y / 2))
or_step (suc x) y =
    rw (bit_or-bitwise (suc x) y, bit_or-bitwise (suc x / 2) (y / 2))
      (omega (arith, digits_halved (λ d. d) max x y))

and_step : (x y : ℕ) → bit_and x y ≡ min (x % 2) (y % 2) + 2 * bit_and (x / 2) (y / 2)
and_step zero y = omega (arith, bit_and-bitwise 0 y, bit_and-bitwise 0 (y / 2))
and_step (suc x) y =
    rw (bit_and-bitwise (suc x) y, bit_and-bitwise (suc x / 2) (y / 2))
      (omega (arith, digits_halved (λ d. 0) min x y))

-- Zero on the right, for all numbers up to a bound.
or_zero_upto : (bound x : ℕ) → x < bound → bit_or x 0 ≡ x
or_zero_upto zero x h = absurd (omega arith)
or_zero_upto (suc bound) zero h = refl
or_zero_upto (suc bound) (suc x) h =
    omega (arith, or_zero_upto bound (suc x / 2) (omega arith), or_step (suc x) 0)

and_zero_upto : (bound x : ℕ) → x < bound → bit_and x 0 ≡ 0
and_zero_upto zero x h = absurd (omega arith)
and_zero_upto (suc bound) zero h = refl
and_zero_upto (suc bound) (suc x) h =
    omega (arith, and_zero_upto bound (suc x / 2) (omega arith), and_step (suc x) 0)

-- One digit of `(q << k) | r`, where `m` is 2 ^ k.
or_digit :
    (m q r : ℕ) → bit_or (q * m) (r / 2) ≡ q * m + r / 2 → bit_or (q * (2 * m)) r ≡ q * (2 * m) + r
or_digit m q r ih =
    let twice : q * (2 * m) ≡ 2 * (q * m) = grind arith in
    let halved : 2 * (q * m) / 2 ≡ q * m = omega arith in
    rw (twice, or_step, halved, ih) (omega arith)

-- `(q << k) | r` is a sum when `r` has at most `k` digits.
pub bit_or-shifted : (k q r : ℕ) → r < 2 ^ k → bit_or (q * 2 ^ k) r ≡ q * 2 ^ k + r
bit_or-shifted zero q r h =
    let none_left : r ≡ 0 = omega arith in
    rw none_left (omega (arith, or_zero_upto (suc (q * 1)) (q * 1) (omega arith)))
bit_or-shifted (suc k) q r h =
    rw (pow-succ' 2 k)
      (or_digit (2 ^ k) q r (bit_or-shifted k q (r / 2) (omega (arith, pow-succ' 2 k))))

-- `&` with a low mask is a remainder.
pub bit_and-0x0f : (a : ℕ) → bit_and a 0x0f ≡ a % 16
bit_and-0x0f a = omega (
  arith,
  and_step a 15,
  and_step (a / 2) 7,
  and_step (a / 2 / 2) 3,
  and_step (a / 2 / 2 / 2) 1,
  and_zero_upto (suc (a / 2 / 2 / 2 / 2)) (a / 2 / 2 / 2 / 2) (omega arith),
)

pub bit_and-0xff : (a : ℕ) → bit_and a 0xff ≡ a % 256
bit_and-0xff a = omega (
  arith,
  and_step a 255,
  and_step (a / 2) 127,
  and_step (a / 2 / 2) 63,
  and_step (a / 2 / 2 / 2) 31,
  bit_and-0x0f (a / 2 / 2 / 2 / 2),
)
