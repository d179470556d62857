-- ===== src/Sha256/Context.antt =====
-- c/sha256.c, `sha256_init`, `sha256_update` and `sha256_final`.
use retriever.Base.{ℕ, zero, suc, ◌+◌, ◌-◌, ◌*◌, ◌%◌, ◌^◌}
use retriever.Base.{List, [], ◌∷◌, ltb, leb, ◌==◌, if◌then◌else◌, length, take, drop}
use retriever.Base.Memory.{memcpy}
use retriever.Packing.{byte_at}
use retriever.Sha256.Block.{sha256_block}

-- `sha256_ctx`. Bytes of `buffer` from `buffered` on are left over from earlier blocks.
pub record Ctx : Type 0 where
  pub state : List ℕ
  pub bit_count : ℕ
  pub buffer : List ℕ
  pub buffered : ℕ

abbrev pub initial_state : List ℕ
initial_state =
    0x6a09e667 ∷ 0xbb67ae85 ∷ 0x3c6ef372 ∷ 0xa54ff53a ∷ 0x510e527f ∷ 0x9b05688c ∷ 0x1f83d9ab
    ∷ 0x5be0cd19 ∷ []

-- `sha256_init`; the buffer keeps what the caller's memory held.
unfoldable pub sha256_init : List ℕ → Ctx
sha256_init memory = record { state = initial_state; bit_count = 0; buffer = memory; buffered = 0 }

-- The first part of `sha256_update`, with a partial block in the buffer: the context and the data
-- still to be taken.
unfoldable pub fill_block : Ctx → List ℕ → Ctx × List ℕ
fill_block ctx p =
    let need = 64 - ctx.buffered in
    let count = if ltb (length p) need then length p else need in
    let filled = memcpy ctx.buffer ctx.buffered (take count p) in
    let total = ctx.buffered + count in
    let next =
      if total == 64
      then record ctx { state = sha256_block ctx.state filled; buffer = filled; buffered = 0 }
      else record ctx { buffer = filled; buffered = total } in
    (next, drop count p)

unfoldable pub top_up : Ctx → List ℕ → Ctx × List ℕ
top_up ctx p = if ltb 0 ctx.buffered then fill_block ctx p else (ctx, p)

-- `while (len >= SHA256_BLOCK_SIZE)`, with fuel.
unfoldable pub whole_blocks : ℕ → Ctx → List ℕ → Ctx × List ℕ
whole_blocks zero ctx p = (ctx, p)
whole_blocks (suc fuel) ctx p =
    let rest =
      whole_blocks fuel (record ctx { state = sha256_block ctx.state (take 64 p) }) (drop 64 p) in
    if leb 64 (length p) then rest else (ctx, p)

unfoldable pub keep_rest : Ctx → List ℕ → Ctx
keep_rest ctx p =
    if ltb 0 (length p)
    then record ctx { buffer = memcpy ctx.buffer 0 p; buffered = length p }
    else ctx

-- Each round of the loop takes 64 bytes, so a fuel of one for each byte is more than enough.
unfoldable pub sha256_update : Ctx → List ℕ → Ctx
sha256_update ctx bytes =
    let counted = record ctx { bit_count = (ctx.bit_count + length bytes * 8 % 2 ^ 64) % 2 ^ 64 } in
    let (topped, p) = top_up counted bytes in
    let (hashed, rest) = whole_blocks (length p) topped p in keep_rest hashed rest

-- `while (ctx->buffered != SHA256_BLOCK_SIZE - 8)`, with fuel.
unfoldable pub pad_zeros : ℕ → ℕ → Ctx → Ctx
pad_zeros zero bits ctx = ctx
pad_zeros (suc fuel) bits ctx =
    let rest = pad_zeros fuel bits (record (sha256_update ctx (0 ∷ [])) { bit_count = bits }) in
    if ctx.buffered == 56 then ctx else rest

-- `length_bytes`, from index `i` on with `left` rounds to go.
unfoldable pub length_bytes : ℕ → ℕ → ℕ → List ℕ
length_bytes zero i bits = []
length_bytes (suc left) i bits = byte_at bits (56 - 8 * i) ∷ length_bytes left (suc i) bits

-- The digest: each state word as four bytes, big-endian.
unfoldable pub state_bytes : List ℕ → List ℕ
state_bytes [] = []
state_bytes (s ∷ state) =
    byte_at s 24 ∷ byte_at s 16 ∷ byte_at s 8 ∷ byte_at s 0 ∷ state_bytes state

-- Zeros go in one at a time, and 64 of them pass every fill of the buffer.
unfoldable pub sha256_final : Ctx → List ℕ
sha256_final ctx =
    let bits = ctx.bit_count in
    let marked = record (sha256_update ctx (0x80 ∷ [])) { bit_count = bits } in
    let padded = pad_zeros 64 bits marked in
    state_bytes (sha256_update padded (length_bytes 8 0 bits)).state
