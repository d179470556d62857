-- ===== src/Transfer/Get/Offering.antt =====
-- The metadata before the body of a GET, as a server writes it.
use retriever.Base.{ℕ, ◌+◌, ◌^◌, ◌≤◌, ◌<◌, ◌≡◌, ap, ◌∙◌, sym, arith}
use retriever.Base.{◌++◌, length, length-append, take, drop, All}
use retriever.Base.{take-append, drop-append, All-append, append_assoc}
use retriever.Packing.{get_u64}
use retriever.Packing.Layout.{big_endian, length-big_endian, big_endian-All, get_u64-eq}
use retriever.Packing.Layout.{from_big_endian, from_big_endian-big_endian, IsByte}
use retriever.Os.World.{Bytes}
use retriever.Transfer.Get.{parse_meta, get_meta_size}
use retriever.Packing.{get_u64}

-- A size, an offset and a hash.
abbrev pub offer_of : ℕ → ℕ → Bytes → Bytes
offer_of total start digest = big_endian 8 total ++ (big_endian 8 start ++ digest)

module _ (total start : ℕ) (digest : Bytes) (long : length digest ≡ 32) where
  pub offer_of-length : length (offer_of total start digest) ≡ get_meta_size
  offer_of-length = omega (
    arith,
    length-append (big_endian 8 total) (big_endian 8 start ++ digest),
    length-append (big_endian 8 start) digest,
    length-big_endian 8 total,
    length-big_endian 8 start,
    long,
  )

  -- What the client makes of it.
  pub parse_meta-offer_of :
      All IsByte digest
      → total < 2 ^ 64
      → start < 2 ^ 64
      → parse_meta (offer_of total start digest)
        ≡ record { total_size = total; start = start; digest = digest }
  unfolding parse_meta
  parse_meta-offer_of bytes fits within =
      let meta : Bytes = offer_of total start digest in
      let tail : Bytes = big_endian 8 start ++ digest in
      let all : All IsByte meta =
        All-append IsByte (big_endian 8 total) tail (big_endian-All 8 total)
          (All-append IsByte (big_endian 8 start) digest (big_endian-All 8 start) bytes) in
      let room : 8 + 8 ≤ length meta = omega (arith, offer_of-length) in
      let behind : drop 8 meta ≡ tail =
        drop-append 8 (big_endian 8 total) tail (length-big_endian 8 total) in
      let size : get_u64 meta 0 ≡ total =
        get_u64-eq meta 0 all (omega (arith, room))
        ∙ ap (λ (b : Bytes). from_big_endian 0 b)
            (take-append 8 (big_endian 8 total) tail (length-big_endian 8 total))
        ∙ from_big_endian-big_endian 8 total fits in
      let begin : get_u64 meta 8 ≡ start =
        get_u64-eq meta 8 all room
        ∙ ap (λ (b : Bytes). from_big_endian 0 (take 8 b)) behind
        ∙ ap (λ (b : Bytes). from_big_endian 0 b)
            (take-append 8 (big_endian 8 start) digest (length-big_endian 8 start))
        ∙ from_big_endian-big_endian 8 start within in
      let hash : drop 16 meta ≡ digest =
        ap (λ (b : Bytes). drop 16 b)
          (sym (append_assoc (big_endian 8 total) (big_endian 8 start) digest))
        ∙ drop-append 16 (big_endian 8 total ++ big_endian 8 start) digest (
            omega (
              arith,
              length-append (big_endian 8 total) (big_endian 8 start),
              length-big_endian 8 total,
              length-big_endian 8 start,
            )) in
      rw (size, begin, hash)
