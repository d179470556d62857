-- ===== src/Sha256/Streaming.antt =====
-- `sha256_final` after any updates, against the hash of the whole message.
use retriever.Base.{ℕ, zero, suc, ◌+◌, ◌*◌, ◌%◌, ◌^◌, ◌<◌, ◌≡◌, refl, subst, ◌∙◌, ap}
use retriever.Base.{List, [], ◌∷◌, ◌++◌, append_assoc, append-nil, foldl, arith, true, false}
use retriever.Base.{flatten, ◌==◌, length, length-append, length-take, replicate}
use retriever.Base.{length-replicate}
use retriever.Packing.Layout.{byte_at-eq, big_endian, length-big_endian}
use retriever.Sha256.Context.{Ctx, sha256_init, sha256_update, pad_zeros, length_bytes}
use retriever.Sha256.Context.{state_bytes, sha256_final}
use retriever.Sha256.Padding.{zero_count, padding, pad, hash_words, words_bytes, sha256}
use retriever.Sha256.Padding.{length-flatten}
use retriever.Sha256.Holding.{Holds-nil, Holds-eq-compress}
use retriever.Sha256.Filling.{Within, pending, pending_empty}
use retriever.Sha256.Update.{update-Within, update-bit_count}

-- The bytes in the buffer are those past the last whole block.
pub buffered-eq-mod :
    (ctx : Ctx) (msg : List ℕ) → Within ctx [] msg → ctx.buffered ≡ length msg % 64
buffered-eq-mod ctx msg w = omega (
  arith,
  w.valid.partial,
  w.valid.room,
  length-take ctx.buffered ctx.buffer,
  length-append (flatten w.holds.blocks) (pending ctx ++ []),
  length-append (pending ctx) [],
  length-flatten w.holds.blocks w.holds.whole,
  ap length w.holds.split,
)

Within-reset :
    (bits : ℕ) (ctx : Ctx) (msg : List ℕ)
    → Within ctx [] msg
    → Within (record ctx { bit_count = bits }) [] msg
Within-reset bits ctx msg w = record {
  valid = record { room = w.valid.room; partial = w.valid.partial };
  holds = w.holds;
}

-- The loop adds exactly the zeros that bring the length to 56 past a multiple of 64.
pad_zeros-Within :
    (k fuel bits : ℕ) (ctx : Ctx) (msg : List ℕ)
    → k < fuel
    → k < 64
    → (length msg + k) % 64 ≡ 56
    → Within ctx [] msg
    → Within (pad_zeros fuel bits ctx) [] (msg ++ replicate k 0)
unfolding pad_zeros
pad_zeros-Within k zero bits ctx msg enough small fits w = absurd (omega arith)
pad_zeros-Within zero (suc fuel) bits ctx msg enough small fits w =
    let stop : (ctx.buffered == 56) ≡ true = ground (arith, buffered-eq-mod ctx msg w) in
    rw (stop, append-nil) w
pad_zeros-Within (suc k) (suc fuel) bits ctx msg enough small fits w =
    let go_on : (ctx.buffered == 56) ≡ false = ground (arith, buffered-eq-mod ctx msg w) in
    let step = update-Within ctx (0 ∷ []) msg w in
    rw (go_on, ← append_assoc msg (0 ∷ []) (replicate k 0))
      (pad_zeros-Within k fuel bits _ (msg ++ (0 ∷ [])) (omega arith) (omega arith)
        (omega (arith, length-append msg (0 ∷ []))) (Within-reset bits _ _ step))

length_bytes-eq : (bits : ℕ) → length_bytes 8 0 bits ≡ big_endian 8 bits
unfolding length_bytes big_endian
length_bytes-eq bits = simp byte_at-eq

state_bytes-eq : (state : List ℕ) → state_bytes state ≡ words_bytes state
unfolding state_bytes words_bytes big_endian
state_bytes-eq [] = refl
state_bytes-eq (s ∷ state) = simp (byte_at-eq, state_bytes-eq state)

-- Padding, as the three updates of `sha256_final` leave it.
pad_parts :
    (msg : List ℕ)
    → ((msg ++ (0x80 ∷ [])) ++ replicate (zero_count (length msg)) 0)
        ++ big_endian 8 (length msg * 8 % 2 ^ 64)
      ≡ pad msg
unfolding pad padding
pad_parts msg = rw (append_assoc, append_assoc)

-- The padded length is a multiple of 64, whatever the message.
pub length-pad : (msg : List ℕ) → length (pad msg) % 64 ≡ 0
unfolding pad padding
length-pad msg = omega (
  arith,
  length-append msg (padding (length msg)),
  length-append (replicate (zero_count (length msg)) 0) (big_endian 8 (length msg * 8 % 2 ^ 64)),
  length-replicate {A = ℕ} (zero_count (length msg)) 0,
  length-big_endian 8 (length msg * 8 % 2 ^ 64),
)

-- With all of a padded message taken in, the state is its hash.
Within-hash_words :
    (ctx : Ctx) (msg : List ℕ) → Within ctx [] (pad msg) → ctx.state ≡ hash_words msg
unfolding hash_words
Within-hash_words ctx msg w =
    let empty : ctx.buffered ≡ 0 = buffered-eq-mod ctx (pad msg) w ∙ length-pad msg in
    Holds-eq-compress (rw (pending_empty ctx empty) at w.holds)

final-eq :
    (ctx : Ctx) (msg : List ℕ)
    → Within ctx [] msg
    → ctx.bit_count ≡ length msg * 8 % 2 ^ 64
    → sha256_final ctx ≡ sha256 msg
unfolding sha256_final sha256
final-eq ctx msg w counted =
    let bits : ℕ = ctx.bit_count in
    let zeros : List ℕ = replicate (zero_count (length msg)) 0 in
    let front : List ℕ = (msg ++ (0x80 ∷ [])) ++ zeros in
    let marked : Ctx = record (sha256_update ctx (0x80 ∷ [])) { bit_count = bits } in
    let padded =
      pad_zeros-Within (zero_count (length msg)) 64 bits marked (msg ++ (0x80 ∷ [])) (omega arith)
        (omega arith) (omega (arith, length-append msg (0x80 ∷ [])))
        (Within-reset bits _ _ (update-Within ctx (0x80 ∷ []) msg w)) in
    let closed = update-Within (pad_zeros 64 bits marked) (length_bytes 8 0 bits) front padded in
    let whole : front ++ length_bytes 8 0 bits ≡ pad msg =
      ap (λ (r : List ℕ). front ++ r)
        (length_bytes-eq bits ∙ ap (λ (n : ℕ). big_endian 8 n) counted)
      ∙ pad_parts msg in
    let last : Ctx = sha256_update (pad_zeros 64 bits marked) (length_bytes 8 0 bits) in
    state_bytes-eq last.state
    ∙ ap (λ (ws : List ℕ). words_bytes ws)
        (Within-hash_words last msg (subst (λ (m : List ℕ). Within last [] m) whole closed))

-- The context after any updates.
stream-Within :
    (chunks : List (List ℕ)) (ctx : Ctx) (msg : List ℕ)
    → Within ctx [] msg
    → ctx.bit_count ≡ length msg * 8 % 2 ^ 64
    → Within (foldl sha256_update ctx chunks) [] (msg ++ flatten chunks)
      × ((foldl sha256_update ctx chunks).bit_count ≡ length (msg ++ flatten chunks) * 8 % 2 ^ 64)
unfolding flatten
stream-Within [] ctx msg w counted = rw append-nil (w, counted)
stream-Within (c ∷ chunks) ctx msg w counted = rw (← append_assoc msg c (flatten chunks)) (
    stream-Within chunks (sha256_update ctx c) (msg ++ c) (update-Within ctx c msg w)
      (omega (arith, update-bit_count ctx c, length-append msg c)))

init-Within : (memory : List ℕ) → length memory ≡ 64 → Within (sha256_init memory) [] []
unfolding sha256_init
init-Within memory h = record {
  valid = record { room = h; partial = omega arith };
  holds = Holds-nil;
}

-- A context that was given a message so far.
abbrev pub Fed : Ctx → List ℕ → Type 0
Fed ctx msg = Within ctx [] msg × (ctx.bit_count ≡ length msg * 8 % 2 ^ 64)

pub Fed-init : (memory : List ℕ) → length memory ≡ 64 → Fed (sha256_init memory) []
Fed-init memory h = (init-Within memory h, unfold sha256_init in refl)

pub Fed-update : (ctx : Ctx) (c msg : List ℕ) → Fed ctx msg → Fed (sha256_update ctx c) (msg ++ c)
Fed-update ctx c msg (w, counted) =
    (update-Within ctx c msg w, omega (arith, update-bit_count ctx c, length-append msg c))

pub Fed-final : (ctx : Ctx) (msg : List ℕ) → Fed ctx msg → sha256_final ctx ≡ sha256 msg
Fed-final ctx msg (w, counted) = final-eq ctx msg w counted

-- However the message is cut into updates, and whatever the memory of the context held before,
-- `sha256_final` gives the hash of the whole message.
pub sha256_final-stream :
    (memory : List ℕ) (chunks : List (List ℕ))
    → length memory ≡ 64
    → sha256_final (foldl sha256_update (sha256_init memory) chunks) ≡ sha256 (flatten chunks)
sha256_final-stream memory chunks h =
    let (w, counted) =
      stream-Within chunks (sha256_init memory) [] (init-Within memory h)
        (unfold sha256_init in refl) in
    final-eq _ (flatten chunks) w counted
