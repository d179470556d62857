-- ===== src/Frame/Encoding.antt =====
-- The header of a frame: docs/PROTOCOL.md, "Frame header", against the code.
use retriever.Base.{ℕ, ◌^◌, ◌<◌, ◌≡◌, refl, ap, ◌∙◌, [], ◌∷◌, ◌++◌, append-nil, arith, All, length}
use retriever.Base.{length-append, length-replicate, length-take, replicate}
use retriever.Base.Memory.{memcpy}
use retriever.Packing.{get_u64}
use retriever.Packing.Inverse.{big_endian-get_u64}
use retriever.Packing.Layout.{big_endian, IsByte, length-big_endian}
use retriever.Packing.RoundTrip.{put_u64-splice, get_u64-segment}
use retriever.Os.World.{World, Bytes}
use retriever.Os.Program.{ok, local_array}
use retriever.Frame.{magic, version, header_size, fill_header, Header, check_header}

-- The 14 bytes of a header, by the protocol's table.
unfoldable pub encode_header : ℕ → ℕ → Bytes
encode_header type payload_len = magic ++ (version ∷ type ∷ big_endian 8 payload_len)

pub length-encode_header : (type n : ℕ) → length (encode_header type n) ≡ header_size
unfolding encode_header
length-encode_header type n = omega (arith, length-big_endian 8 n)

pub length-local_array : (n : ℕ) (w : World) → length (local_array n w) ≡ n
length-local_array n w = omega (
  arith,
  length-take n (w.stack ++ replicate n 0),
  length-append w.stack (replicate n 0),
  length-replicate {A = ℕ} n 0,
)

-- Filling an array of 14 bytes gives the encoded header, whatever it held: no byte of
-- uninitialised memory is left in it.
pub fill_header-eq :
    (memory : Bytes) (type n : ℕ)
    → length memory ≡ header_size
    → fill_header memory type n ≡ encode_header type n
unfolding fill_header encode_header memcpy
fill_header-eq (a0 ∷ a1 ∷ a2 ∷ a3 ∷ a4 ∷ a5 ∷ a6 ∷ a7 ∷ a8 ∷ a9 ∷ a10 ∷ a11 ∷ a12 ∷ a13 ∷ []) type n
      h =
    put_u64-splice _ 6 n (omega arith) ∙ rw append-nil
fill_header-eq _ type n h = absurd (omega arith)

-- Reading the fields of an encoded header gives them back, and no check stops it.
pub check_header-encode :
    (type n : ℕ) (w : World)
    → type < 256
    → n < 2 ^ 64
    → check_header (encode_header type n) w ≡ ok (record { type = type; payload_len = n }) w
unfolding check_header encode_header
check_header-encode type n w ht hn =
    let front : Bytes = magic ++ (version ∷ type ∷ []) in
    let read : get_u64 (front ++ big_endian 8 n) 6 ≡ n =
      rw append-nil at (get_u64-segment front [] 6 n refl (omega arith) tt hn) in
    ap (λ (k : ℕ). ok (record { type = type; payload_len = k }) w) read

-- Fourteen bytes that pass the checks of a header are the encoding of the fields that are read
-- from them, and the world is as before.
pub check_header_sound :
    (header : Bytes) (h : Header) (w w' : World)
    → length header ≡ header_size
    → All IsByte header
    → check_header header w ≡ ok h w'
    → (header ≡ encode_header h.type h.payload_len) × (w' ≡ w)
unfolding check_header encode_header
check_header_sound (a0 ∷ a1 ∷ a2 ∷ a3 ∷ a4 ∷ a5 ∷ a6 ∷ a7 ∷ a8 ∷ a9 ∷ a10 ∷ a11 ∷ a12 ∷ a13 ∷ []) h
      w w' size bytes accepted =
    ground (
      arith,
      big_endian-get_u64
          (a0 ∷ a1 ∷ a2 ∷ a3 ∷ a4 ∷ a5 ∷ a6 ∷ a7 ∷ a8 ∷ a9 ∷ a10 ∷ a11 ∷ a12 ∷ a13 ∷ []) 6 bytes
          (omega arith),
    )
check_header_sound _ h w w' size bytes accepted = absurd (omega arith)
