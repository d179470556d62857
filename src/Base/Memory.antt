-- ===== src/Base/Memory.antt =====
-- `memcpy` into a C array. The caller sees to the room: a write out of range changes nothing.
use retriever.Base.{ℕ, zero, suc, ◌+◌, ◌≤◌, ◌≡◌, refl, ap, ◌∙◌, List, [], ◌∷◌, ◌++◌, arith}
use retriever.Base.{
  length, set, take, drop, length-set, append_assoc, take-append, length-append, length-take,
}

-- `memcpy(dst + off, src, length src)`
unfoldable pub memcpy : List ℕ → ℕ → List ℕ → List ℕ
memcpy dst off [] = dst
memcpy dst off (b ∷ bs) = memcpy (set dst off b) (suc off) bs

memcpy-suc :
    (x : ℕ) (dst : List ℕ) (off : ℕ) (src : List ℕ)
    → memcpy (x ∷ dst) (suc off) src ≡ x ∷ memcpy dst off src
unfolding memcpy
memcpy-suc x dst off [] = refl
memcpy-suc x dst off (b ∷ bs) = memcpy-suc x (set dst off b) (suc off) bs

-- The copy replaces a segment and keeps what stands before and after it.
pub memcpy-eq-splice :
    (dst : List ℕ) (off : ℕ) (src : List ℕ) (end : ℕ)
    → off + length src ≡ end
    → end ≤ length dst
    → memcpy dst off src ≡ take off dst ++ (src ++ drop end dst)
unfolding memcpy
memcpy-eq-splice dst zero [] zero e h = refl
memcpy-eq-splice dst zero [] (suc end) e h = absurd (omega arith)
memcpy-eq-splice [] zero (b ∷ bs) end e h = absurd (omega arith)
memcpy-eq-splice (x ∷ dst) zero (b ∷ bs) zero e h = absurd (omega arith)
memcpy-eq-splice (x ∷ dst) zero (b ∷ bs) (suc end) e h =
    memcpy-suc b dst 0 bs
    ∙ ap (λ r. b ∷ r) (memcpy-eq-splice dst 0 bs end (omega arith) (omega arith))
memcpy-eq-splice [] (suc off) src end e h = absurd (omega arith)
memcpy-eq-splice (x ∷ dst) (suc off) src zero e h = absurd (omega arith)
memcpy-eq-splice (x ∷ dst) (suc off) src (suc end) e h =
    memcpy-suc x dst off src
    ∙ ap (λ r. x ∷ r) (memcpy-eq-splice dst off src end (omega arith) (omega arith))

pub length-memcpy :
    (dst : List ℕ) (off : ℕ) (src : List ℕ) → length (memcpy dst off src) ≡ length dst
unfolding memcpy
length-memcpy dst off [] = refl
length-memcpy dst off (b ∷ bs) = length-memcpy (set dst off b) (suc off) bs ∙ length-set dst off b

-- A copy behind the first `n` bytes continues them.
pub take-memcpy :
    (buffer src : List ℕ) (n total : ℕ)
    → n + length src ≡ total
    → total ≤ length buffer
    → take total (memcpy buffer n src) ≡ take n buffer ++ src
take-memcpy buffer src n total e room =
    rw (memcpy-eq-splice buffer n src total e room, ← append_assoc)
      (take-append total (take n buffer ++ src) (drop total buffer)
        (omega (arith, length-append (take n buffer) src, length-take n buffer)))
