-- ===== src/Sha256/Holding.antt =====
-- How far a state has come in a message: some whole blocks are hashed, and the rest is at hand.
use retriever.Base.{ℕ, ◌≡◌, refl, ◌∙◌, sym, ap, ap₂, ◌/◌, List, [], ◌∷◌, ◌++◌, arith}
use retriever.Base.{flatten, foldl-append, append_assoc, append-nil, length, All, All-append}
use retriever.Sha256.Block.{sha256_block}
use retriever.Sha256.Context.{initial_state}
use retriever.Sha256.Padding.{IsBlock, compress, blocks_of, blocks_of-flatten, length-flatten}

pub record Holds (state pending msg : List ℕ) : Type 0 where
  pub blocks : List (List ℕ)
  pub whole : All IsBlock blocks
  pub split : flatten blocks ++ pending ≡ msg
  pub hashed : state ≡ compress blocks

pub Holds-nil : Holds initial_state [] []
Holds-nil = record { blocks = []; whole = tt; split = unfold flatten in refl; hashed = refl }

pub Holds-append :
    {state pending msg : List ℕ} (more : List ℕ)
    → Holds state pending msg
    → Holds state (pending ++ more) (msg ++ more)
Holds-append {pending} more h = record {
  blocks = h.blocks;
  whole = h.whole;
  split =
      sym (append_assoc (flatten h.blocks) pending more) ∙ ap (λ (r : List ℕ). r ++ more) h.split;
  hashed = h.hashed;
}

flatten-snoc : (bs : List (List ℕ)) (b : List ℕ) → flatten (bs ++ (b ∷ [])) ≡ flatten bs ++ b
unfolding flatten
flatten-snoc [] b = append-nil b
flatten-snoc (c ∷ bs) b =
    ap (λ (r : List ℕ). c ++ r) (flatten-snoc bs b) ∙ sym (append_assoc c (flatten bs) b)

-- Hashing the next 64 bytes of what is pending.
pub Holds-block :
    {state rest msg : List ℕ} (b : List ℕ)
    → IsBlock b
    → Holds state (b ++ rest) msg
    → Holds (sha256_block state b) rest msg
Holds-block {rest} b hb h = record {
  blocks = h.blocks ++ (b ∷ []);
  whole = All-append IsBlock h.blocks (b ∷ []) h.whole (hb, tt);
  split =
      ap (λ (r : List ℕ). r ++ rest) (flatten-snoc h.blocks b)
      ∙ append_assoc (flatten h.blocks) b rest
      ∙ h.split;
  hashed =
      ap (λ (s : List ℕ). sha256_block s b) h.hashed
      ∙ sym (foldl-append sha256_block initial_state h.blocks (b ∷ []));
}

-- With nothing pending, the state is that of all the message's blocks.
pub Holds-eq-compress :
    {state msg : List ℕ} → Holds state [] msg → state ≡ compress (blocks_of (length msg / 64) msg)
Holds-eq-compress {msg} h =
    let joined : flatten h.blocks ≡ msg = sym (append-nil (flatten h.blocks)) ∙ h.split in
    let total : length (flatten h.blocks) ≡ length msg = ap length joined in
    let count : length h.blocks ≡ length msg / 64 =
      omega (arith, total, length-flatten h.blocks h.whole) in
    h.hashed
    ∙ ap (λ (bs : List (List ℕ)). compress bs)
        (sym (blocks_of-flatten h.blocks h.whole)
          ∙ ap₂ (λ (n : ℕ) (m : List ℕ). blocks_of n m) count joined)
