-- ===== src/Socket/Stream.antt =====
-- The abstract view of a connection: the bytes that will come and how they end, whatever the
-- segments and signals.
use retriever.Base.{ℕ, zero, suc, ◌-◌, ◌≤◌, ◌≡◌, refl, sym, ◌∙◌, arith, List, [], ◌∷◌, ◌++◌}
use retriever.Base.{leb, leb→le, Bool-cases, inl, inr, if◌then◌else◌}
use retriever.Base.{length, length-append, drop, drop-append_le, drop-append_ge}
use retriever.Os.World.{Bytes, Arrival, segment, closed}
use retriever.Socket.{put_back}

pub data Ending : Type 0 where
  open_ended cut shut : Ending

unfoldable pub stream : List Arrival → Bytes
stream [] = []
stream (segment b bs ∷ rest) = (b ∷ bs) ++ stream rest
stream (Arrival.signal ∷ rest) = stream rest
stream (Arrival.broken ∷ rest) = []
stream (closed ∷ rest) = []

unfoldable pub ending : List Arrival → Ending
ending [] = open_ended
ending (segment b bs ∷ rest) = ending rest
ending (Arrival.signal ∷ rest) = ending rest
ending (Arrival.broken ∷ rest) = cut
ending (closed ∷ rest) = shut

-- What is still to come after `n` bytes are read.
unfoldable pub advance : ℕ → List Arrival → List Arrival
advance zero inbox = inbox
advance (suc n) [] = []
advance (suc n) (segment b bs ∷ rest) =
    let next = advance (n - length bs) rest in
    if leb (length bs) n then next else put_back (drop n bs) rest
advance (suc n) (Arrival.signal ∷ rest) = advance (suc n) rest
advance (suc n) (Arrival.broken ∷ rest) = Arrival.broken ∷ rest
advance (suc n) (closed ∷ rest) = closed ∷ rest

stream-put_back : (bs : Bytes) (rest : List Arrival) → stream (put_back bs rest) ≡ bs ++ stream rest
unfolding stream
stream-put_back [] rest = refl
stream-put_back (b ∷ bs) rest = refl

ending-put_back : (bs : Bytes) (rest : List Arrival) → ending (put_back bs rest) ≡ ending rest
unfolding ending
ending-put_back [] rest = refl
ending-put_back (b ∷ bs) rest = refl

-- Reading takes bytes off the front of the stream.
pub stream-advance :
    (n : ℕ) (inbox : List Arrival)
    → n ≤ length (stream inbox)
    → stream (advance n inbox) ≡ drop n (stream inbox)
unfolding stream advance
stream-advance zero inbox h = refl
stream-advance (suc n) [] h = absurd (omega arith)
stream-advance (suc n) (segment b bs ∷ rest) h = elim (Bool-cases (leb (length bs) n)) [
  | inl all ↦ rw all (
      stream-advance (n - length bs) rest
        (omega (arith, length-append bs (stream rest), leb→le _ _ all))
      ∙ sym (drop-append_ge n (n - length bs) bs (stream rest) (omega (arith, leb→le _ _ all))))
  | inr some ↦
      rw some
        (stream-put_back (drop n bs) rest ∙ sym (drop-append_le n bs (stream rest) (ground arith)))
]
stream-advance (suc n) (Arrival.signal ∷ rest) h = stream-advance (suc n) rest h
stream-advance (suc n) (Arrival.broken ∷ rest) h = absurd (omega arith)
stream-advance (suc n) (closed ∷ rest) h = absurd (omega arith)

-- Reading does not change how the connection ends.
pub ending-advance : (n : ℕ) (inbox : List Arrival) → ending (advance n inbox) ≡ ending inbox
unfolding ending advance
ending-advance zero inbox = refl
ending-advance (suc n) [] = refl
ending-advance (suc n) (segment b bs ∷ rest) = elim (Bool-cases (leb (length bs) n)) [
  | inl all ↦ rw all (ending-advance (n - length bs) rest)
  | inr some ↦ rw some (ending-put_back (drop n bs) rest)
]
ending-advance (suc n) (Arrival.signal ∷ rest) = ending-advance (suc n) rest
ending-advance (suc n) (Arrival.broken ∷ rest) = refl
ending-advance (suc n) (closed ∷ rest) = refl
