-- ===== src/Packing/Inverse.antt =====
-- Bytes read as a number and written out again.
use retriever.Base.{ℕ, zero, suc, ◌+◌, ◌*◌, ◌/◌, ◌^◌, ◌≤◌, ◌≡◌, refl, ap, ◌∙◌, arith}
use retriever.Base.{List, [], ◌∷◌, length, take, drop, take-append-drop, length-take}
use retriever.Base.{length-drop, drop-drop, All, All-take, All-drop}
use native.Mathlib.Nat.{div-div-eq-div-mul}
use retriever.Packing.{put_u64, get_u64}
use retriever.Packing.Layout.{big_endian, from_big_endian, IsByte, pow_eight, get_u64-eq}
use retriever.Packing.RoundTrip.{put_u64-splice}

-- The bytes below the accumulator are cut off again by a shift.
from_big_endian-div :
    (k acc : ℕ) (bs : List ℕ)
    → length bs ≡ k
    → All IsByte bs
    → from_big_endian acc bs / 2 ^ (8 * k) ≡ acc
unfolding from_big_endian
from_big_endian-div zero acc [] e h = omega arith
from_big_endian-div zero acc (b ∷ bs) e h = absurd (omega arith)
from_big_endian-div (suc k) acc [] e h = absurd (omega arith)
from_big_endian-div (suc k) acc (b ∷ bs) e (hb, hs) =
    let below = from_big_endian-div k (acc * 256 + b) bs (omega arith) hs in
    rw (pow_eight k, ← div-div-eq-div-mul (from_big_endian (acc * 256 + b) bs) (2 ^ (8 * k)) 256)
      (rw below (omega arith))

-- Big-endian is injective on bytes: writing the number gives the bytes back.
pub big_endian-from_big_endian :
    (k acc : ℕ) (bs : List ℕ)
    → length bs ≡ k
    → All IsByte bs
    → big_endian k (from_big_endian acc bs) ≡ bs
unfolding from_big_endian big_endian
big_endian-from_big_endian zero acc [] e h = refl
big_endian-from_big_endian zero acc (b ∷ bs) e h = absurd (omega arith)
big_endian-from_big_endian (suc k) acc [] e h = absurd (omega arith)
big_endian-from_big_endian (suc k) acc (b ∷ bs) e (hb, hs) =
    let top = from_big_endian-div k (acc * 256 + b) bs (omega arith) hs in
    rw (top, big_endian-from_big_endian k (acc * 256 + b) bs (omega arith) hs)
      (ap (λ (x : ℕ). x ∷ bs) (omega arith))

pub big_endian-get_u64 :
    (src : List ℕ) (off : ℕ)
    → All IsByte src
    → off + 8 ≤ length src
    → big_endian 8 (get_u64 src off) ≡ take 8 (drop off src)
big_endian-get_u64 src off bytes room = rw (get_u64-eq src off bytes room) (
    big_endian-from_big_endian 8 0 (take 8 (drop off src))
      (omega (arith, length-take 8 (drop off src), length-drop off src))
      (All-take IsByte 8 (drop off src) (All-drop IsByte off src bytes)))

-- Writing back the value that was read from an offset leaves a buffer of bytes as it was.
pub put_u64-get_u64 :
    (buf : List ℕ) (off : ℕ)
    → All IsByte buf
    → off + 8 ≤ length buf
    → put_u64 buf off (get_u64 buf off) ≡ buf
put_u64-get_u64 buf off bytes room =
    put_u64-splice buf off (get_u64 buf off) room
    ∙ rw (big_endian-get_u64 buf off bytes room, ← drop-drop off 8 (off + 8) buf refl)
        (rw (take-append-drop 8 (drop off buf)) (take-append-drop off buf))
