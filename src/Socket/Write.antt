-- ===== src/Socket/Write.antt =====
-- `write_all` on every connection.
use retriever.Base.{ℕ, zero, suc, ◌+◌, ◌-◌, ◌≤◌, ◌<◌, ◌≡◌, refl, sym, ap, ◌∙◌, arith, min}
use retriever.Base.{List, [], ◌∷◌, ◌++◌, append_assoc, append-nil, Bool, true, false, leb}
use retriever.Base.{length, length-drop, take, take_all, drop, drop-drop, take-add}
use retriever.Os.World.{World, Bytes, Room, takes, write_failed}
use retriever.Os.Program.{Run, ok, err}
use retriever.Socket.{send_into, send, write_loop, write_all}

-- Whether the connection lasts for `n` bytes.
unfoldable pub lasts : ℕ → List Room → Bool
lasts zero rooms = true
lasts (suc n) [] = true
lasts (suc n) (takes k ∷ rest) = lasts (n - k) rest
lasts (suc n) (Room.signal ∷ rest) = lasts (suc n) rest
lasts (suc n) (Room.broken ∷ rest) = false

-- How many of `n` bytes it takes.
unfoldable pub carried : ℕ → List Room → ℕ
carried zero rooms = 0
carried (suc n) [] = suc n
carried (suc n) (takes k ∷ rest) = min (suc k) (suc n) + carried (n - k) rest
carried (suc n) (Room.signal ∷ rest) = carried (suc n) rest
carried (suc n) (Room.broken ∷ rest) = 0

unfoldable pub spend : ℕ → List Room → List Room
spend zero rooms = rooms
spend (suc n) [] = []
spend (suc n) (takes k ∷ rest) = spend (n - k) rest
spend (suc n) (Room.signal ∷ rest) = spend (suc n) rest
spend (suc n) (Room.broken ∷ rest) = Room.broken ∷ rest

pub carried_all : (n : ℕ) (rooms : List Room) → lasts n rooms ≡ true → carried n rooms ≡ n
unfolding lasts carried
carried_all zero rooms h = refl
carried_all (suc n) [] h = refl
carried_all (suc n) (takes k ∷ rest) h = omega (arith, carried_all (n - k) rest h)
carried_all (suc n) (Room.signal ∷ rest) h = carried_all (suc n) rest h
carried_all (suc n) (Room.broken ∷ rest) h = ground arith

pub carried-lt : (n : ℕ) (rooms : List Room) → lasts n rooms ≡ false → carried n rooms < n
unfolding lasts carried
carried-lt zero rooms h = ground arith
carried-lt (suc n) [] h = ground arith
carried-lt (suc n) (takes k ∷ rest) h = omega (arith, carried-lt (n - k) rest h)
carried-lt (suc n) (Room.signal ∷ rest) h = carried-lt (suc n) rest h
carried-lt (suc n) (Room.broken ∷ rest) h = omega arith

-- The world with the connection at a point of the loop.
abbrev pub at : World → List Room → Bytes → World
at w rooms sent = record w { rooms = rooms; sent = sent }

-- How the loop ends.
abbrev pub outcome : Bool → World → Run (Unit {0})
outcome true w = ok tt w
outcome false w = err (record w { log = w.log ++ (write_failed ∷ []) })

module _ (fuel : ℕ) (p : Bytes) (done : ℕ) (w : World) (sent : Bytes) where
  loop_done :
      (rooms : List Room)
      → length p ≤ done
      → write_loop (suc fuel) p done (at w rooms sent) ≡ ok tt (at w rooms sent)
  unfolding write_loop
  loop_done rooms h = ground arith

  loop_takes :
      (k m : ℕ) (rest : List Room)
      → done + suc m ≡ length p
      → write_loop (suc fuel) p done (at w (takes k ∷ rest) sent)
        ≡ write_loop fuel p
            (done + min (suc k) (suc m))
            (at w rest (sent ++ take (min (suc k) (suc m)) (drop done p)))
  unfolding write_loop send send_into
  loop_takes k m rest e =
      let left : length (drop done p) ≡ suc m = omega (arith, length-drop done p) in
      let go_on : leb (length p) done ≡ false = ground arith in rw (go_on, left)

  loop_rest :
      (m : ℕ)
      → done + suc m ≡ length p
      → write_loop (suc fuel) p done (at w [] sent)
        ≡ write_loop fuel p (done + suc m) (at w [] (sent ++ take (suc m) (drop done p)))
  unfolding write_loop send send_into
  loop_rest m e =
      let left : length (drop done p) ≡ suc m = omega (arith, length-drop done p) in
      let go_on : leb (length p) done ≡ false = ground arith in rw (go_on, left)

  loop_signal :
      (m : ℕ) (rest : List Room)
      → done + suc m ≡ length p
      → write_loop (suc fuel) p done (at w (Room.signal ∷ rest) sent)
        ≡ write_loop fuel p done (at w rest sent)
  unfolding write_loop send send_into
  loop_signal m rest e = ground arith

  loop_broken :
      (m : ℕ) (rest : List Room)
      → done + suc m ≡ length p
      → write_loop (suc fuel) p done (at w (Room.broken ∷ rest) sent)
        ≡ outcome false (at w (Room.broken ∷ rest) sent)
  unfolding write_loop send send_into
  loop_broken m rest e = ground arith

take_parts :
    (p : Bytes) (done a b : ℕ)
    → take a (drop done p) ++ take b (drop (done + a) p) ≡ take (a + b) (drop done p)
take_parts p done a b =
    ap (λ (r : Bytes). take a (drop done p) ++ take b r) (sym (drop-drop done a (done + a) p refl))
    ∙ take-add a b (a + b) (drop done p) refl

write_loop-outcome :
    (fuel : ℕ) (p : Bytes) (done m : ℕ) (rooms : List Room) (w : World) (sent : Bytes)
    → length rooms + 1 < fuel
    → done + m ≡ length p
    → write_loop fuel p done (at w rooms sent)
      ≡ outcome
          (lasts m rooms)
          (at w (spend m rooms) (sent ++ take (carried m rooms) (drop done p)))
unfolding lasts carried spend
write_loop-outcome zero p done m rooms w sent f e = absurd (omega arith)
write_loop-outcome (suc fuel) p done zero rooms w sent f e =
    loop_done fuel p done w sent rooms (omega arith) ∙ rw append-nil
write_loop-outcome (suc zero) p done (suc m) rooms w sent f e = absurd (omega arith)
write_loop-outcome (suc (suc fuel)) p done (suc m) [] w sent f e =
    loop_rest (suc fuel) p done w sent m e ∙ loop_done fuel p (done + suc m) w _ [] (omega arith)
write_loop-outcome (suc (suc fuel)) p done (suc m) (takes k ∷ rest) w sent f e =
    loop_takes (suc fuel) p done w sent k m rest e
    ∙ write_loop-outcome (suc fuel) p (done + min (suc k) (suc m)) (m - k) rest w
        (sent ++ take (min (suc k) (suc m)) (drop done p)) (omega arith) (omega arith)
    ∙ ap (λ (r : Bytes). outcome (lasts (m - k) rest) (at w (spend (m - k) rest) r))
        (append_assoc sent (take (min (suc k) (suc m)) (drop done p)) _
          ∙ ap (λ (r : Bytes). sent ++ r) (take_parts p done (min (suc k) (suc m)) _))
write_loop-outcome (suc (suc fuel)) p done (suc m) (Room.signal ∷ rest) w sent f e =
    loop_signal (suc fuel) p done w sent m rest e
    ∙ write_loop-outcome (suc fuel) p done (suc m) rest w sent (omega arith) e
write_loop-outcome (suc (suc fuel)) p done (suc m) (Room.broken ∷ rest) w sent f e =
    loop_broken (suc fuel) p done w sent m rest e ∙ rw append-nil

-- Where each `send` comes back, in a process that ignores SIGPIPE: `write_all` sends all the bytes and
-- returns 0 where the connection lasts for them, in any number of parts and with signals between them;
-- where a `send` fails first, it fails with the message after the part that was carried.
pub write_all-outcome :
    (p : Bytes) (w : World)
    → write_all p w
      ≡ outcome
          (lasts (length p) w.rooms)
          (at w (spend (length p) w.rooms) (w.sent ++ take (carried (length p) w.rooms) p))
unfolding write_all
write_all-outcome p w =
    write_loop-outcome (length w.rooms + 2) p 0 (length p) w.rooms w w.sent (omega arith)
      (omega arith)

module _ (p : Bytes) (n : ℕ) (w : World) (size : length p ≡ n) where
  pub write_all_ok :
      lasts n w.rooms ≡ true → write_all p w ≡ ok tt (at w (spend n w.rooms) (w.sent ++ p))
  write_all_ok h =
      write_all-outcome p w ∙ rw (size, h, carried_all n w.rooms h, take_all n p (omega arith))

  pub write_all_err :
      lasts n w.rooms ≡ false
      → write_all p w
        ≡ outcome false (at w (spend n w.rooms) (w.sent ++ take (carried n w.rooms) p))
  write_all_err h = write_all-outcome p w ∙ rw (size, h)
