-- ===== src/Socket/Read.antt =====
-- `read_exact` on every connection.
use retriever.Base.{ℕ, zero, suc, ◌+◌, ◌-◌, ◌≤◌, ◌<◌, ◌≡◌, sym, ap, ◌∙◌, arith}
use retriever.Base.{List, [], ◌∷◌, ◌++◌, append_assoc, append-nil, true, false, leb, Bool-cases}
use retriever.Base.{leb→le, inl, inr}
use retriever.Base.{length, length-append, length-take, take, drop, take_all, drop_all}
use retriever.Base.{take-append_ge, take-append_le}
use retriever.Os.World.{World, Bytes, Arrival, segment, closed, read_failed, closed_early}
use retriever.Os.Program.{Run, ok, err, waits}
use retriever.Socket.{put_back, recv_from, recv, read_loop, read_exact}
use retriever.Socket.Stream.{Ending, open_ended, cut, shut, stream, ending, advance}

module _ (fuel n : ℕ) (buf : Bytes) (w : World) where
  loop_done : n ≤ length buf → read_loop (suc fuel) n buf w ≡ ok buf w
  unfolding read_loop
  loop_done h = ground arith

module _ (fuel n : ℕ) (buf : Bytes) (w : World) (more : length buf < n) where
  loop_signal :
      (rest : List Arrival)
      → read_loop (suc fuel) n buf (record w { inbox = Arrival.signal ∷ rest })
        ≡ read_loop fuel n buf (record w { inbox = rest })
  unfolding read_loop recv recv_from
  loop_signal rest = ground arith

  loop_segment :
      (b m : ℕ) (bs : Bytes) (rest : List Arrival)
      → length buf + m ≡ n
      → read_loop (suc fuel) n buf (record w { inbox = segment b bs ∷ rest })
        ≡ read_loop fuel n
            (buf ++ take m (b ∷ bs))
            (record w { inbox = put_back (drop m (b ∷ bs)) rest })
  unfolding read_loop recv recv_from
  loop_segment b m bs rest e =
      let count : n - length buf ≡ m = omega arith in
      let go_on : leb n (length buf) ≡ false = ground arith in rw (go_on, count)

-- The failures of a read that cannot be satisfied.
abbrev pub stop : Ending → World → Run Bytes
stop open_ended w = waits w
stop cut w = err (record w { log = w.log ++ (read_failed ∷ []) })
stop shut w = err (record w { log = w.log ++ (closed_early ∷ []) })

-- An inbox that gives no byte any more.
abbrev IsSpent : List Arrival → Type 0
IsSpent [] = Unit
IsSpent (segment b bs ∷ rest) = ⊥
IsSpent (Arrival.signal ∷ rest) = ⊥
IsSpent (Arrival.broken ∷ rest) = Unit
IsSpent (closed ∷ rest) = Unit

module _ (fuel n : ℕ) (buf : Bytes) (w : World) (more : length buf < n) where
  loop_stop :
      (inbox : List Arrival)
      → IsSpent inbox
      → read_loop (suc fuel) n buf (record w { inbox = inbox })
        ≡ stop (ending inbox) (record w { inbox = inbox })
  unfolding read_loop recv recv_from ending
  loop_stop [] h = ground arith
  loop_stop (segment b bs ∷ rest) h = absurd h
  loop_stop (Arrival.signal ∷ rest) h = absurd h
  loop_stop (Arrival.broken ∷ rest) h = ground arith
  loop_stop (closed ∷ rest) h = ground arith

read_loop_full :
    (fuel n m : ℕ) (buf : Bytes) (inbox : List Arrival) (w : World)
    → length inbox + 1 < fuel
    → length buf + m ≡ n
    → m ≤ length (stream inbox)
    → read_loop fuel n buf (record w { inbox = inbox })
      ≡ ok (buf ++ take m (stream inbox)) (record w { inbox = advance m inbox })
unfolding stream advance
read_loop_full zero n m buf inbox w f e h = absurd (omega arith)
read_loop_full (suc fuel) n zero buf inbox w f e h =
    loop_done fuel n buf _ (omega arith)
    ∙ ap (λ (r : Bytes). ok r (record w { inbox = inbox })) (sym (append-nil buf))
read_loop_full (suc fuel) n (suc m) buf [] w f e h = absurd (omega arith)
read_loop_full (suc fuel) n (suc m) buf (Arrival.broken ∷ rest) w f e h = absurd (omega arith)
read_loop_full (suc fuel) n (suc m) buf (closed ∷ rest) w f e h = absurd (omega arith)
read_loop_full (suc fuel) n (suc m) buf (Arrival.signal ∷ rest) w f e h =
    loop_signal fuel n buf w (omega arith) rest
    ∙ read_loop_full fuel n (suc m) buf rest w (omega arith) e h
read_loop_full (suc zero) n (suc m) buf (segment b bs ∷ rest) w f e h = absurd (omega arith)
read_loop_full (suc (suc fuel)) n (suc m) buf (segment b bs ∷ rest) w f e h =
    loop_segment (suc fuel) n buf w (omega arith) b (suc m) bs rest e
    ∙ elim (Bool-cases (leb (length bs) m)) [
      | inl all ↦
          rw (all, take_all m bs (leb→le _ _ all), drop_all m bs (leb→le _ _ all))
            (read_loop_full (suc fuel) n (m - length bs) (buf ++ (b ∷ bs)) rest w (omega arith)
                (omega (arith, length-append buf (b ∷ bs), leb→le _ _ all))
                (omega (arith, length-append bs (stream rest), leb→le _ _ all))
              ∙ ap (λ (r : Bytes). ok r (record w { inbox = advance (m - length bs) rest }))
                  (append_assoc buf (b ∷ bs) (take (m - length bs) (stream rest))
                    ∙ ap (λ (r : Bytes). buf ++ (b ∷ r))
                        (sym (
                          take-append_ge m (m - length bs) bs (stream rest)
                            (omega (arith, leb→le _ _ all))))))
      | inr some ↦ rw some (
          loop_done fuel n (buf ++ (b ∷ take m bs)) _
            (ground (arith, length-append buf (b ∷ take m bs), length-take m bs))
          ∙ ap (λ (r : Bytes). ok (buf ++ (b ∷ r)) (record w { inbox = put_back (drop m bs) rest }))
              (sym (take-append_le m bs (stream rest) (ground arith))))
    ]

read_loop_short :
    (fuel n m : ℕ) (buf : Bytes) (inbox : List Arrival) (w : World)
    → length inbox + 1 < fuel
    → length buf + m ≡ n
    → length (stream inbox) < m
    → read_loop fuel n buf (record w { inbox = inbox })
      ≡ stop (ending inbox) (record w { inbox = advance m inbox })
unfolding stream advance ending
read_loop_short zero n m buf inbox w f e h = absurd (omega arith)
read_loop_short (suc fuel) n zero buf inbox w f e h = absurd (omega arith)
read_loop_short (suc fuel) n (suc m) buf [] w f e h = loop_stop fuel n buf w (omega arith) [] tt
read_loop_short (suc fuel) n (suc m) buf (Arrival.broken ∷ rest) w f e h =
    loop_stop fuel n buf w (omega arith) (Arrival.broken ∷ rest) tt
read_loop_short (suc fuel) n (suc m) buf (closed ∷ rest) w f e h =
    loop_stop fuel n buf w (omega arith) (closed ∷ rest) tt
read_loop_short (suc fuel) n (suc m) buf (Arrival.signal ∷ rest) w f e h =
    loop_signal fuel n buf w (omega arith) rest
    ∙ read_loop_short fuel n (suc m) buf rest w (omega arith) e h
read_loop_short (suc fuel) n (suc m) buf (segment b bs ∷ rest) w f e h =
    let within : length bs ≤ m = omega (arith, length-append bs (stream rest)) in
    let all : leb (length bs) m ≡ true = ground arith in
    loop_segment fuel n buf w (omega arith) b (suc m) bs rest e
    ∙ rw (all, take_all m bs within, drop_all m bs within)
        (read_loop_short fuel n (m - length bs) (buf ++ (b ∷ bs)) rest w (omega arith)
          (omega (arith, length-append buf (b ∷ bs)))
          (omega (arith, length-append bs (stream rest))))

-- With enough bytes to come, `read_exact` returns exactly the next `n`, whatever segments and
-- signals they arrive in, and changes nothing but the connection.
pub read_exact_full :
    (n : ℕ) (w : World)
    → n ≤ length (stream w.inbox)
    → read_exact n w ≡ ok (take n (stream w.inbox)) (record w { inbox = advance n w.inbox })
unfolding read_exact
read_exact_full n w h =
    read_loop_full (length w.inbox + 2) n n [] w.inbox w (omega arith) (omega arith) h

-- With fewer than `n` bytes to come, `read_exact` takes them all and fails with the message for
-- how the connection ends, or waits where it stays open.
pub read_exact_short :
    (n : ℕ) (w : World)
    → length (stream w.inbox) < n
    → read_exact n w ≡ stop (ending w.inbox) (record w { inbox = advance n w.inbox })
unfolding read_exact
read_exact_short n w h =
    read_loop_short (length w.inbox + 2) n n [] w.inbox w (omega arith) (omega arith) h
