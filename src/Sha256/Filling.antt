-- ===== src/Sha256/Filling.antt =====
-- The first part of `sha256_update`, which fills the buffer, and what a context holds of the message.
use retriever.Base.{ℕ, ◌+◌, ◌-◌, ◌≤◌, ◌<◌, ◌≡◌, refl, ◌∙◌, sym, ap}
use retriever.Base.{List, [], ◌++◌, append_assoc, append-nil, arith, ◌⊎◌, inl, inr}
use retriever.Base.{ltb, Bool-cases, ltb→lt}
use retriever.Base.{length, take, drop, take-append-drop, length-take}
use retriever.Base.{take_all, drop_all}
use retriever.Base.Memory.{take-memcpy, memcpy, length-memcpy}
use retriever.Sha256.Block.{sha256_block}
use retriever.Sha256.Context.{Ctx, fill_block, top_up}
use retriever.Sha256.Holding.{Holds, Holds-block}

-- The buffer is an array of 64 bytes that is never full between calls.
pub record IsValid (ctx : Ctx) : Type 0 where
  pub room : length ctx.buffer ≡ 64
  pub partial : ctx.buffered < 64

abbrev pub pending : Ctx → List ℕ
pending ctx = take ctx.buffered ctx.buffer

-- A context within a message, with `rest` still to be taken from the caller's data.
pub record Within (ctx : Ctx) (rest msg : List ℕ) : Type 0 where
  pub valid : IsValid ctx
  pub holds : Holds ctx.state (pending ctx ++ rest) msg

fill_block_partial :
    (ctx : Ctx) (p : List ℕ)
    → length p + ctx.buffered < 64
    → fill_block ctx p ≡ (
      record ctx { buffer = memcpy ctx.buffer ctx.buffered p; buffered = ctx.buffered + length p },
      [],
    )
unfolding fill_block
fill_block_partial ctx p h =
    ground (arith, take_all (length p) p (omega arith), drop_all (length p) p (omega arith))

fill_block_full :
    (ctx : Ctx) (p : List ℕ)
    → ctx.buffered < 64
    → 64 ≤ length p + ctx.buffered
    → let filled = memcpy ctx.buffer ctx.buffered (take (64 - ctx.buffered) p) in
      fill_block ctx p ≡ (
        record ctx { state = sha256_block ctx.state filled; buffer = filled; buffered = 0 },
        drop (64 - ctx.buffered) p,
      )
unfolding fill_block
fill_block_full ctx p part h = ground arith

-- After the first part either the buffer is empty or the data is used up.
abbrev pub Topped : Ctx × List ℕ → List ℕ → Type 0
Topped r msg = Within r.0 r.1 msg × ((r.0.buffered ≡ 0) ⊎ (r.1 ≡ []))

fill_partial-Topped :
    (ctx : Ctx) (p msg : List ℕ)
    → Within ctx p msg
    → length p + ctx.buffered < 64
    → Topped (fill_block ctx p) msg
fill_partial-Topped ctx p msg w h = rw (fill_block_partial ctx p h) (
  record {
    valid = record {
      room = length-memcpy ctx.buffer ctx.buffered p ∙ w.valid.room;
      partial = omega arith;
    };
    holds =
        rw
          (
            append-nil,
            take-memcpy ctx.buffer p ctx.buffered (ctx.buffered + length p) refl
                (omega (arith, w.valid.room)),
          )
          w.holds;
  },
  inr refl,
)

fill_full-Topped :
    (ctx : Ctx) (p msg : List ℕ)
    → Within ctx p msg
    → 64 ≤ length p + ctx.buffered
    → Topped (fill_block ctx p) msg
fill_full-Topped ctx p msg w h =
    let need : ℕ = 64 - ctx.buffered in
    let filled : List ℕ = memcpy ctx.buffer ctx.buffered (take need p) in
    let full : length filled ≡ 64 =
      length-memcpy ctx.buffer ctx.buffered (take need p) ∙ w.valid.room in
    let joined : filled ≡ take ctx.buffered ctx.buffer ++ take need p =
      sym (take_all 64 filled (omega arith))
      ∙ take-memcpy ctx.buffer (take need p) ctx.buffered 64
          (omega (arith, length-take need p, w.valid.partial)) (omega (arith, w.valid.room)) in
    let before : Holds ctx.state (filled ++ drop need p) msg =
      rw (joined, append_assoc, take-append-drop need p) w.holds in
    rw (fill_block_full ctx p w.valid.partial h) (
      record {
        valid = record { room = full; partial = omega arith };
        holds = Holds-block filled full before;
      },
      inl refl,
    )

pub top_up-Topped : (ctx : Ctx) (p msg : List ℕ) → Within ctx p msg → Topped (top_up ctx p) msg
unfolding top_up
top_up-Topped ctx p msg w = elim (Bool-cases (ltb 0 ctx.buffered)) [
  | inl some ↦ rw some (elim (Bool-cases (ltb (length p + ctx.buffered) 64)) [
    | inl short ↦ fill_partial-Topped ctx p msg w (ltb→lt _ _ short)
    | inr long ↦ fill_full-Topped ctx p msg w (ground arith)
  ])
  | inr none_yet ↦ rw none_yet (w, inl (ground arith))
]

pub pending_empty : (ctx : Ctx) → ctx.buffered ≡ 0 → pending ctx ≡ []
pending_empty ctx e = ap (λ (n : ℕ). take n ctx.buffer) e
