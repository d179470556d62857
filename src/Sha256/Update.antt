-- ===== src/Sha256/Update.antt =====
-- `sha256_update` step by step: each part keeps what the context holds of the message.
use retriever.Base.{ℕ, zero, suc, ◌+◌, ◌*◌, ◌%◌, ◌^◌, ◌≤◌, ◌<◌, ◌≡◌, refl, ◌∙◌}
use retriever.Base.{List, [], ◌∷◌, ◌++◌, append-nil, arith, inl, inr}
use retriever.Base.{leb, Bool-cases, leb→le}
use retriever.Base.{length, take, drop, take-append-drop, length-take, length-drop}
use retriever.Base.Memory.{memcpy, length-memcpy}
use retriever.Sha256.Block.{sha256_block}
use retriever.Sha256.Context.{Ctx, fill_block, top_up, whole_blocks, keep_rest, sha256_update}
use retriever.Sha256.Holding.{Holds-append, Holds-block}
use retriever.Base.Memory.{take-memcpy}
use retriever.Sha256.Filling.{Within, Topped, top_up-Topped, pending_empty}

-- What the loop over whole blocks leaves.
abbrev Drained : Ctx × List ℕ → List ℕ → Type 0
Drained r msg = Within r.0 r.1 msg × (r.0.buffered ≡ 0) × (length r.1 < 64)

-- One whole block of the data is hashed.
Within-block :
    (ctx : Ctx) (p msg : List ℕ)
    → ctx.buffered ≡ 0
    → 64 ≤ length p
    → Within ctx p msg
    → Within (record ctx { state = sha256_block ctx.state (take 64 p) }) (drop 64 p) msg
Within-block ctx p msg e long w = record {
  valid = record { room = w.valid.room; partial = w.valid.partial };
  holds = rw (pending_empty ctx e) (
      Holds-block (take 64 p) (omega (arith, length-take 64 p))
        (rw (take-append-drop 64 p) (rw (pending_empty ctx e) at w.holds)));
}

whole_blocks-Drained :
    (fuel : ℕ) (ctx : Ctx) (p msg : List ℕ)
    → length p ≤ fuel
    → ctx.buffered ≡ 0
    → Within ctx p msg
    → Drained (whole_blocks fuel ctx p) msg
unfolding whole_blocks
whole_blocks-Drained zero ctx p msg enough e w = (w, e, omega arith)
whole_blocks-Drained (suc fuel) ctx p msg enough e w = elim (Bool-cases (leb 64 (length p))) [
  | inl long ↦ rw long (
      whole_blocks-Drained fuel _ (drop 64 p) msg
        (omega (arith, length-drop 64 p, leb→le 64 (length p) long)) e
        (Within-block ctx p msg e (leb→le 64 (length p) long) w))
  | inr short ↦ rw short (w, e, ground arith)
]

whole_blocks-nil : (fuel : ℕ) (ctx : Ctx) → whole_blocks fuel ctx [] ≡ (ctx, [])
unfolding whole_blocks
whole_blocks-nil zero ctx = refl
whole_blocks-nil (suc fuel) ctx = refl

-- What is left goes into the empty buffer.
keep_rest-cons :
    (ctx : Ctx) (x : ℕ) (p : List ℕ)
    → keep_rest ctx (x ∷ p)
      ≡ record ctx { buffer = memcpy ctx.buffer 0 (x ∷ p); buffered = suc (length p) }
unfolding keep_rest
keep_rest-cons ctx x p = ground arith

keep_rest-nil : (ctx : Ctx) → keep_rest ctx [] ≡ ctx
unfolding keep_rest
keep_rest-nil ctx = refl

keep_rest-Within :
    (ctx : Ctx) (p msg : List ℕ)
    → ctx.buffered ≡ 0
    → length p < 64
    → Within ctx p msg
    → Within (keep_rest ctx p) [] msg
keep_rest-Within ctx [] msg e short w = rw keep_rest-nil w
keep_rest-Within ctx (x ∷ p) msg e short w = rw (keep_rest-cons ctx x p) (record {
  valid = record { room = length-memcpy ctx.buffer 0 (x ∷ p) ∙ w.valid.room; partial = short };
  holds =
      rw
        (
          append-nil,
          take-memcpy ctx.buffer (x ∷ p) 0 (suc (length p)) (omega arith)
              (omega (arith, w.valid.room)),
        )
        (rw (pending_empty ctx e) at w.holds);
})

-- The rest of `sha256_update` after the first part.
finish-Within :
    (r : Ctx × List ℕ) (msg : List ℕ)
    → Topped r msg
    → let h = whole_blocks (length r.1) r.0 r.1 in Within (keep_rest h.0 h.1) [] msg
finish-Within (ctx, p) msg (w, inl e) =
    let (w', e', short) = whole_blocks-Drained (length p) ctx p msg (omega arith) e w in
    keep_rest-Within _ _ msg e' short w'
finish-Within (ctx, p) msg (w, inr e) = rw e (rw whole_blocks-nil (rw keep_rest-nil (rw e at w)))

pub update-Within :
    (ctx : Ctx) (bytes msg : List ℕ)
    → Within ctx [] msg
    → Within (sha256_update ctx bytes) [] (msg ++ bytes)
unfolding sha256_update
update-Within ctx bytes msg w = finish-Within _ (msg ++ bytes) (
    top_up-Topped _ bytes (msg ++ bytes) (record {
      valid = record { room = w.valid.room; partial = w.valid.partial };
      holds = Holds-append bytes (rw append-nil at w.holds);
    }))

top_up-bit_count : (ctx : Ctx) (p : List ℕ) → (top_up ctx p).0.bit_count ≡ ctx.bit_count
unfolding top_up fill_block
top_up-bit_count ctx p = ground arith

whole_blocks-bit_count :
    (fuel : ℕ) (ctx : Ctx) (p : List ℕ) → (whole_blocks fuel ctx p).0.bit_count ≡ ctx.bit_count
unfolding whole_blocks
whole_blocks-bit_count zero ctx p = refl
whole_blocks-bit_count (suc fuel) ctx p = elim (Bool-cases (leb 64 (length p))) [
  | inl long ↦ rw long (whole_blocks-bit_count fuel _ (drop 64 p))
  | inr short ↦ rw short
]

keep_rest-bit_count : (ctx : Ctx) (p : List ℕ) → (keep_rest ctx p).bit_count ≡ ctx.bit_count
unfolding keep_rest
keep_rest-bit_count ctx p = ground arith

-- The length that is counted, in bits, wraps at 2 ^ 64.
pub update-bit_count :
    (ctx : Ctx) (bytes : List ℕ)
    → (sha256_update ctx bytes).bit_count ≡ (ctx.bit_count + length bytes * 8 % 2 ^ 64) % 2 ^ 64
unfolding sha256_update
update-bit_count ctx bytes =
    keep_rest-bit_count _ _ ∙ whole_blocks-bit_count _ _ _ ∙ top_up-bit_count _ bytes
