-- ===== src/Session/Names.antt =====
-- `do_list` against a server that answers with a list of names.
use retriever.Base.{
  ◌≤◌, ◌<◌, ◌≡◌, refl, ◌∙◌, ap, ap₂, sym, append-nil, zero, suc, arith, true, false, [], ◌∷◌, ◌++◌,
  map, length, take,
}
use retriever.Base.{List, All, append_assoc}
use retriever.Os.World.{World, Bytes, Message, listed}
use retriever.Os.Program.{ok, ◌>>◌, ◌>>=◌, draw}
use retriever.Socket.Stream.{stream}
use retriever.Socket.Write.{outcome, at}
use retriever.Frame.{t_list, t_ok, payload_cap, write_frame}
use retriever.Frame.Writing.{
  frame_bytes, frame_lasts, frame_carried, frame_spend, write_frame-outcome,
}
use retriever.Frame.Reading.{after_frame, read_frame-frame_bytes}
use retriever.Session.{do_list}
use retriever.Session.Listing.{names, emit, names_from, IsText, after_list, show_list-names}

-- What holds after the names are printed: they are the last that is printed, the block is freed, and
-- the next byte to come is the one behind the reply.
abbrev pub Listed : Bytes → Bytes → World → World → Type 0
Listed payload rest w w' =
    (w'.log ≡ w.log ++ map listed (names payload)) × ((w'.heap ≡ w.heap) × (stream w'.inbox ≡ rest))

after_frame-Listed :
    (p rest : Bytes) (w v : World)
    → v.log ≡ w.log
    → v.heap ≡ w.heap
    → stream (after_frame p v).inbox ≡ rest
    → Listed p rest w (after_list p (after_frame p v))
unfolding names_from
after_frame-Listed [] rest w v hl hh hs =
    (ap (λ (l : List Message). l ++ map listed (names [])) hl, (hh, hs))
after_frame-Listed (b ∷ bs) rest w v hl hh hs =
    (ap (λ (l : List Message). l ++ map listed (names (b ∷ bs))) hl, (omega (arith, hh), hs))

-- Where the request goes out, the reply is an OK frame with a payload within the cap, and the `malloc`
-- for it does not fail, `do_list` returns 0 and prints the names that stand between the zero bytes of the payload, in their order
-- and without the empty ones.
pub do_list-Listed :
    (payload rest : Bytes) (w : World)
    → frame_lasts 0 w.rooms ≡ true
    → length payload ≤ payload_cap
    → draw w.faults ≡ false
    → stream w.inbox ≡ frame_bytes t_ok payload ++ rest
    → (w' : World) × ((do_list w ≡ ok tt w') × Listed payload rest w w')
unfolding do_list
do_list-Listed payload rest w sends fits given comes =
    let v : World =
      at w (frame_spend 0 w.rooms)
        (w.sent ++ take (frame_carried 0 w.rooms) (frame_bytes t_list [])) in
    let wrote : write_frame t_list [] w ≡ ok tt v =
      write_frame-outcome t_list [] w ∙ ap (λ b. outcome b v) sends in
    let (read, left) = read_frame-frame_bytes t_ok payload rest v (omega arith) fits given comes in
    (
      after_list payload (after_frame payload v),
      (
        rw (wrote, ◌>>◌, ◌>>=◌)
            (rw (read, ◌>>=◌) (show_list-names payload (after_frame payload v))),
        after_frame-Listed payload rest w v refl refl left,
      ),
    )

-- Names joined by zero bytes, as the server sends them.
unfoldable pub join : List Bytes → Bytes
join [] = []
join (n ∷ []) = n
join (n ∷ m ∷ ns) = n ++ (0 ∷ join (m ∷ ns))

abbrev pub IsName : Bytes → Type 0
IsName n = (0 < length n) × All IsText n

names_from-text :
    (text begun rest : Bytes)
    → All IsText text
    → names_from begun (text ++ rest) ≡ names_from (begun ++ text) rest
unfolding names_from
names_from-text [] begun rest h = ap (λ (b : Bytes). names_from b rest) (sym (append-nil begun))
names_from-text (zero ∷ text) begun rest (h, hs) = absurd (omega (arith, h))
names_from-text (suc b ∷ text) begun rest (h, hs) =
    names_from-text text (begun ++ (suc b ∷ [])) rest hs
    ∙ ap (λ (n : Bytes). names_from n rest) (append_assoc begun (suc b ∷ []) text)

emit_name : (n : Bytes) → 0 < length n → emit n ≡ n ∷ []
emit_name [] h = absurd (omega (arith, h))
emit_name (c ∷ cs) h = refl

-- Names that are neither empty nor hold a zero byte are found again in what they are joined to.
pub names-join : (ns : List Bytes) → All IsName ns → names (join ns) ≡ ns
unfolding join names_from
names-join [] h = refl
names-join (n ∷ []) ((positive, text), h) =
    ap (λ (b : Bytes). names_from [] b) (sym (append-nil n))
    ∙ names_from-text n [] [] text
    ∙ emit_name n positive
names-join (n ∷ m ∷ ns) ((positive, text), h) =
    names_from-text n [] (0 ∷ join (m ∷ ns)) text
    ∙ ap₂ (λ (a b : List Bytes). a ++ b) (emit_name n positive) (names-join (m ∷ ns) h)
