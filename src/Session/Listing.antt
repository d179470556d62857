-- ===== src/Session/Listing.antt =====
-- What LIST prints: the names in the reply.
use retriever.Base.{
  ℕ, zero, suc, ◌+◌, ◌-◌, ◌<◌, ◌≡◌, refl, ◌∙◌, ap, sym, subst, arith, true, false, ltb, ◌==◌, ◌||◌,
}
use retriever.Base.{
  List, [], ◌∷◌, ◌++◌, append_assoc, append-nil, map, length, length-append, drop, get_or,
}
use retriever.Base.{Bool, All, drop-append, if◌then◌else◌}
use retriever.Os.World.{World, Bytes, Message, listed}
use retriever.Os.Program.{ok, pure, say, ◌>>◌, ◌>>=◌}
use retriever.Os.Heap.{free}
use retriever.Frame.{printed, t_ok}
use retriever.Frame.Reading.{block}
use retriever.Session.{list_loop, show_list}

-- A name that is not empty.
abbrev pub emit : Bytes → List Bytes
emit [] = []
emit (c ∷ cs) = (c ∷ cs) ∷ []

-- The names of a payload, cut at its zero bytes, with the name that is begun.
unfoldable pub names_from : Bytes → Bytes → List Bytes
names_from begun [] = emit begun
names_from begun (zero ∷ rest) = emit begun ++ names_from [] rest
names_from begun (suc b ∷ rest) = names_from (begun ++ (suc b ∷ [])) rest

abbrev pub names : Bytes → List Bytes
names payload = names_from [] payload

abbrev pub IsText : ℕ → Type 0
IsText b = 0 < b

printed-append : (text rest : Bytes) → All IsText text → printed (length text) (text ++ rest) ≡ text
unfolding printed
printed-append [] rest h = refl
printed-append (zero ∷ text) rest (h, hs) = absurd (omega (arith, h))
printed-append (suc b ∷ text) rest (h, hs) =
    ap (λ (r : Bytes). suc b ∷ r) (printed-append text rest hs)

get_or-append :
    (front : Bytes) (b : ℕ) (rest : Bytes) (i : ℕ)
    → length front ≡ i
    → get_or (front ++ (b ∷ rest)) i 0 ≡ b
get_or-append [] b rest zero h = refl
get_or-append [] b rest (suc i) h = absurd (omega (arith, h))
get_or-append (x ∷ front) b rest zero h = absurd (omega (arith, h))
get_or-append (x ∷ front) b rest (suc i) h = get_or-append front b rest i (omega (arith, h))

-- The world with the names printed.
abbrev pub logged : List Bytes → World → World
logged ns w = record w { log = w.log ++ map listed ns }

logged_nil : (w : World) → logged [] w ≡ w
logged_nil w = ap (λ (l : List Message). record w { log = l }) (append-nil w.log)

map-listed_append : (ns ms : List Bytes) → map listed (ns ++ ms) ≡ map listed ns ++ map listed ms
map-listed_append [] ms = refl
map-listed_append (n ∷ ns) ms = ap (λ (l : List Message). listed n ∷ l) (map-listed_append ns ms)

logged-logged : (ns ms : List Bytes) (w : World) → logged ms (logged ns w) ≡ logged (ns ++ ms) w
logged-logged ns ms w =
    ap (λ (l : List Message). record w { log = l })
      (append_assoc w.log (map listed ns) (map listed ms)
        ∙ ap (λ (l : List Message). w.log ++ l) (sym (map-listed_append ns ms)))

-- One name, at its end.
show_name :
    (front begun rest : Bytes) (i start : ℕ) (w : World)
    → All IsText begun
    → length front ≡ start
    → start + length begun ≡ i
    → (if ltb start i
          then say (listed (printed (i - start) (drop start (front ++ (begun ++ rest)))))
          else pure tt)
        w
      ≡ ok tt (logged (emit begun) w)
show_name front [] rest i start w text hf hi =
    let none_begun : ltb start i ≡ false = ground arith in
    rw none_begun (ap (λ (v : World). ok tt v) (sym (logged_nil w)))
show_name front (c ∷ cs) rest i start w text hf hi =
    let begun : Bytes = c ∷ cs in
    let some_begun : ltb start i ≡ true = ground arith in
    let size : i - start ≡ length begun = omega arith in
    rw
      (some_begun, size, drop-append start front (begun ++ rest) hf, printed-append begun rest text)

module _ (left i start : ℕ) (p : Bytes) (w : World) where
  abbrev at_end : Bool
  at_end = (i == length p) || (get_or p i 0 == 0)

  list_loop_end :
      at_end ≡ true
      → list_loop (suc left) i start p w
        ≡ ((if ltb start i then say (listed (printed (i - start) (drop start p))) else pure tt)
              >> list_loop left (i + 1) (i + 1) p)
            w
  unfolding list_loop
  list_loop_end h = rw (h, list_loop)

  list_loop_inside :
      at_end ≡ false → list_loop (suc left) i start p w ≡ list_loop left (i + 1) start p w
  unfolding list_loop
  list_loop_inside h = rw (h, list_loop)

All-snoc : (text : Bytes) (b : ℕ) → All IsText text → IsText b → All IsText (text ++ (b ∷ []))
All-snoc [] b h hb = (hb, tt)
All-snoc (c ∷ text) b (hc, h) hb = (hc, All-snoc text b h hb)

module _ (front begun rest : Bytes) (b i start : ℕ) (hf : length front ≡ start)
    (hi : start + length begun ≡ i) where
  get_or_at : get_or (front ++ (begun ++ (b ∷ rest))) i 0 ≡ b
  get_or_at =
      ap (λ (p : Bytes). get_or p i 0) (sym (append_assoc front begun (b ∷ rest)))
      ∙ get_or-append (front ++ begun) b rest i (omega (arith, hf, hi, length-append front begun))

  one_taken : front ++ ((begun ++ (b ∷ [])) ++ rest) ≡ front ++ (begun ++ (b ∷ rest))
  one_taken = ap (λ (p : Bytes). front ++ p) (append_assoc begun (b ∷ []) rest)

  length-one_taken : length (begun ++ (b ∷ [])) ≡ length begun + 1
  length-one_taken = omega (arith, length-append begun (b ∷ []))

-- The walk from inside a name to the end of the payload.
list_loop-names :
    (rest front begun : Bytes) (i start : ℕ) (w : World)
    → All IsText begun
    → length front ≡ start
    → start + length begun ≡ i
    → list_loop (suc (length rest)) i start (front ++ (begun ++ rest)) w
      ≡ ok tt (logged (names_from begun rest) w)
unfolding names_from
list_loop-names [] front begun i start w text hf hi =
    let p : Bytes = front ++ (begun ++ []) in
    let size : length p ≡ i = omega (
      arith,
      hf,
      hi,
      length-append front (begun ++ []),
      ap (λ (b : Bytes). length b) (append-nil begun),
    ) in
    list_loop_end zero i start p w (ground (arith, size))
    ∙ rw (show_name front begun [] i start w text hf hi, ◌>>◌, ◌>>=◌) (unfold list_loop in refl)
list_loop-names (zero ∷ rest) front begun i start w text hf hi =
    let p : Bytes = front ++ (begun ++ (zero ∷ rest)) in
    let read : get_or p i 0 ≡ 0 = get_or_at front begun rest zero i start hf hi in
    list_loop_end (suc (length rest)) i start p w (ground (arith, read))
    ∙ rw (show_name front begun (zero ∷ rest) i start w text hf hi, ◌>>◌, ◌>>=◌)
        (subst
            (λ (q : Bytes).
              list_loop (suc (length rest)) (i + 1) (i + 1) q (logged (emit begun) w)
              ≡ ok tt (logged (names_from [] rest) (logged (emit begun) w)))
            (append_assoc front (begun ++ (zero ∷ [])) rest
              ∙ one_taken front begun rest zero i start hf hi)
            (list_loop-names rest (front ++ (begun ++ (zero ∷ []))) [] (i + 1) (i + 1)
              (logged (emit begun) w) tt
              (omega (
                arith,
                hf,
                hi,
                length-append front (begun ++ (zero ∷ [])),
                length-one_taken front begun rest zero i start hf hi,
              ))
              (omega arith))
          ∙ ap (λ (v : World). ok tt v) (logged-logged (emit begun) (names_from [] rest) w))
list_loop-names (suc b ∷ rest) front begun i start w text hf hi =
    let p : Bytes = front ++ (begun ++ (suc b ∷ rest)) in
    let read : get_or p i 0 ≡ suc b = get_or_at front begun rest (suc b) i start hf hi in
    let size : length p ≡ i + suc (length rest) = omega (
      arith,
      hf,
      hi,
      length-append front (begun ++ (suc b ∷ rest)),
      length-append begun (suc b ∷ rest),
    ) in
    list_loop_inside (suc (length rest)) i start p w (ground (arith, size, read))
    ∙ subst
        (λ (q : Bytes).
          list_loop (suc (length rest)) (i + 1) start q w
          ≡ ok tt (logged (names_from (begun ++ (suc b ∷ [])) rest) w))
        (one_taken front begun rest (suc b) i start hf hi)
        (list_loop-names rest front (begun ++ (suc b ∷ [])) (i + 1) start w
          (All-snoc begun (suc b) text (omega arith)) hf
          (omega (arith, hi, length-one_taken front begun rest (suc b) i start hf hi)))

-- The world after the names are printed and the payload is freed.
abbrev pub after_list : Bytes → World → World
after_list [] w = logged [] w
after_list (b ∷ bs) w = record (logged (names (b ∷ bs)) w) { heap = w.heap - 1 }

list_loop_whole :
    (p : Bytes) (w : World) → list_loop (length p + 1) 0 0 p w ≡ ok tt (logged (names p) w)
list_loop_whole p w =
    subst (λ (n : ℕ). list_loop n 0 0 p w ≡ ok tt (logged (names p) w)) (omega arith)
      (list_loop-names p [] [] 0 0 w tt refl (omega arith))

pub show_list-names :
    (p : Bytes) (w : World)
    → show_list (record { type = t_ok; payload = block p; payload_len = length p }) w
      ≡ ok tt (after_list p w)
unfolding show_list free names_from
show_list-names [] w = rw (list_loop_whole [] w, ◌>>◌, ◌>>=◌) refl
show_list-names (b ∷ bs) w = rw (list_loop_whole (b ∷ bs) w, ◌>>◌, ◌>>=◌) refl
