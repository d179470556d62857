-- ===== src/Packing/RoundTrip.antt =====
-- Writing an integer into a buffer and reading it back.
use retriever.Base.{ℕ, ◌+◌, ◌^◌, ◌≤◌, ◌<◌, ◌≡◌, ◌∙◌, List, ◌++◌, arith, length, take, drop, All}
use retriever.Base.{
  length-append, length-take, take-append, drop-append, All-append, All-take, All-drop,
}
use retriever.Base.Memory.{memcpy-eq-splice}
use retriever.Packing.{put_u16, put_u64, get_u16, get_u64}
use retriever.Packing.Layout.{big_endian, IsByte, length-big_endian, big_endian-All}
use retriever.Packing.Layout.{put_u64-memcpy, put_u16-memcpy, get_u64-eq, get_u16-eq}
use retriever.Packing.Layout.{from_big_endian-big_endian}

-- Where eight bytes fit at `off`, `put_u64` writes the big-endian bytes of the value there and
-- changes no other byte.
pub put_u64-splice :
    (dst : List ℕ) (off v : ℕ)
    → off + 8 ≤ length dst
    → put_u64 dst off v ≡ take off dst ++ (big_endian 8 v ++ drop (off + 8) dst)
put_u64-splice dst off v room =
    put_u64-memcpy dst off v
    ∙ memcpy-eq-splice dst off (big_endian 8 v) (off + 8) (omega (arith, length-big_endian 8 v))
        room

pub put_u16-splice :
    (dst : List ℕ) (off v : ℕ)
    → off + 2 ≤ length dst
    → put_u16 dst off v ≡ take off dst ++ (big_endian 2 v ++ drop (off + 2) dst)
put_u16-splice dst off v room =
    put_u16-memcpy dst off v
    ∙ memcpy-eq-splice dst off (big_endian 2 v) (off + 2) (omega (arith, length-big_endian 2 v))
        room

-- A segment of `k` bytes between a front and a back.
module _ (front mid back : List ℕ) (off k : ℕ) (lf : length front ≡ off) (lm : length mid ≡ k) where
  segment_room : off + k ≤ length (front ++ (mid ++ back))
  segment_room = omega (arith, length-append front (mid ++ back), length-append mid back)

  segment_read : take k (drop off (front ++ (mid ++ back))) ≡ mid
  segment_read = rw (drop-append off front (mid ++ back) lf) (take-append k mid back lm)

segment_bytes :
    (front mid back : List ℕ)
    → All IsByte front
    → All IsByte mid
    → All IsByte back
    → All IsByte (front ++ (mid ++ back))
segment_bytes front mid back hf hm hb =
    All-append IsByte front (mid ++ back) hf (All-append IsByte mid back hm hb)

-- A number that stands in a buffer is what `get_u64` reads there.
pub get_u64-segment :
    (front back : List ℕ) (off v : ℕ)
    → length front ≡ off
    → All IsByte front
    → All IsByte back
    → v < 2 ^ 64
    → get_u64 (front ++ (big_endian 8 v ++ back)) off ≡ v
get_u64-segment front back off v lf hf hb hv =
    get_u64-eq (front ++ (big_endian 8 v ++ back)) off
      (segment_bytes front (big_endian 8 v) back hf (big_endian-All 8 v) hb)
      (segment_room front (big_endian 8 v) back off 8 lf (length-big_endian 8 v))
    ∙ rw (segment_read front (big_endian 8 v) back off 8 lf (length-big_endian 8 v))
        (from_big_endian-big_endian 8 v hv)

pub get_u16-segment :
    (front back : List ℕ) (off v : ℕ)
    → length front ≡ off
    → All IsByte front
    → All IsByte back
    → v < 2 ^ 16
    → get_u16 (front ++ (big_endian 2 v ++ back)) off ≡ v
get_u16-segment front back off v lf hf hb hv =
    get_u16-eq (front ++ (big_endian 2 v ++ back)) off
      (segment_bytes front (big_endian 2 v) back hf (big_endian-All 2 v) hb)
      (segment_room front (big_endian 2 v) back off 2 lf (length-big_endian 2 v))
    ∙ rw (segment_read front (big_endian 2 v) back off 2 lf (length-big_endian 2 v))
        (from_big_endian-big_endian 2 v hv)

-- Every 64-bit value that is written into a buffer of bytes, at an offset with room for it, is
-- read back from there.
pub get_u64-put_u64 :
    (dst : List ℕ) (off v : ℕ)
    → All IsByte dst
    → off + 8 ≤ length dst
    → v < 2 ^ 64
    → get_u64 (put_u64 dst off v) off ≡ v
get_u64-put_u64 dst off v bytes room hv = rw (put_u64-splice dst off v room) (
    get_u64-segment (take off dst) (drop (off + 8) dst) off v (omega (arith, length-take off dst))
      (All-take IsByte off dst bytes) (All-drop IsByte (off + 8) dst bytes) hv)

-- A 16-bit value that `put_u16` writes into a buffer of bytes, at an offset with room for two, is
-- read back from there by `get_u16`.
get_u16-put_u16 :
    (dst : List ℕ) (off v : ℕ)
    → All IsByte dst
    → off + 2 ≤ length dst
    → v < 2 ^ 16
    → get_u16 (put_u16 dst off v) off ≡ v
get_u16-put_u16 dst off v bytes room hv = rw (put_u16-splice dst off v room) (
    get_u16-segment (take off dst) (drop (off + 2) dst) off v (omega (arith, length-take off dst))
      (All-take IsByte off dst bytes) (All-drop IsByte (off + 2) dst bytes) hv)
