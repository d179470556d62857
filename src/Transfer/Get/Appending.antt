-- ===== src/Transfer/Get/Appending.antt =====
-- What the download appends to the partial file.
use retriever.Base.{ℕ, zero, suc, ◌-◌, ◌≤◌, ◌<◌, ◌≡◌, ◌∙◌, ap, subst, true}
use retriever.Base.{Bool-cases, inl, inr, arith, length, take, drop, ltb, leb, leb→le}
use retriever.Base.{some, ◌++◌, append_assoc, append-nil}
use retriever.Base.{take-add, length-drop}
use retriever.Os.World.{World, Bytes, Key, regular, interrupted, cannot_write_to}
use retriever.Os.Program.{M, ◌>>◌, say, draw}
use retriever.Os.Files.{lookup, resolve, release, fwrite}
use retriever.Os.Lookup.{lookup-insert}
use retriever.Os.Triples.{Settles}
use retriever.Os.Triples.{Triple, Anything, Contract-Anything, Contract-bind}
use retriever.Os.Triples.{Contract-on_error, Contract-given}
use retriever.Os.Triples.{Contract-weaken}
use retriever.Socket.{read_exact}
use retriever.Socket.Stream.{stream, ending, advance, stream-advance}
use retriever.Socket.Read.{read_exact_full, read_exact_short}
use retriever.Transfer.Get.{download_piece, piece_size, download_loop}
use retriever.Transfer.Get.Incoming.{Comes, Lands-stop}

-- A regular file with these contents stands at the place.
abbrev pub Holds : Key → Bytes → World → Type 0
Holds k c w = lookup k w.files ≡ some (regular c)

module _ (partial : Bytes) where
  abbrev pub k : Key
  k = resolve partial

  read_exact-Holds :
      (n : ℕ) (c bytes : Bytes)
      → Triple
          (λ w. Holds k c w × Comes bytes w)
          (read_exact n)
          (λ got w.
            ((n ≤ length bytes) × (got ≡ take n bytes)) × (Holds k c w × Comes (drop n bytes) w))
          Anything
  read_exact-Holds n c bytes = record {
    runs = λ w (held, comes). elim (Bool-cases (leb n (length (stream w.inbox)))) [
      | inl enough ↦ rw (read_exact_full n w (leb→le _ _ enough)) (
        (
          subst (λ (s : Bytes). n ≤ length s) comes (leb→le _ _ enough),
          ap (λ (s : Bytes). take n s) comes,
        ),
        (held, stream-advance n w.inbox (leb→le _ _ enough) ∙ ap (λ (s : Bytes). drop n s) comes),
      )
      | inr missing ↦
          rw (read_exact_short n w (ground arith))
            (Lands-stop _ (ending w.inbox) (record w { inbox = advance n w.inbox }))
    ];
  }

  fwrite-Holds :
      {F : Type 0} (fact : F) (c bytes more : Bytes)
      → Triple
          (λ w. Holds k c w × Comes bytes w)
          (fwrite partial more)
          (λ _ w. F × (Holds k (c ++ more) w × Comes bytes w))
          Anything
  unfolding fwrite
  fwrite-Holds fact c bytes more = record {
    runs = λ w (held, comes). elim (Bool-cases (draw w.faults)) [
      | inl e ↦ rw (e, Settles) tt
      | inr e ↦ rw (e, Settles) (fact, (rw held (lookup-insert _ _ _), comes))
    ];
  }

  download_piece-Holds :
      (want : ℕ) (c bytes : Bytes)
      → Triple
          (λ w. Holds k c w × Comes bytes w)
          (download_piece partial want)
          (λ _ w.
            (want ≤ length bytes) × (Holds k (c ++ take want bytes) w × Comes (drop want bytes) w))
          Anything
  unfolding download_piece
  download_piece-Holds want c bytes =
      Contract-bind
        (Contract-on_error (read_exact-Holds want c bytes)
          (Contract-Anything (release >> say interrupted)))
        (λ got. Contract-given (λ (enough, e).
          Contract-on_error
            (subst
              (λ (g : Bytes).
                Triple (λ w. Holds k c w × Comes (drop want bytes) w) (fwrite partial got)
                  (λ _ w. (want ≤ length bytes) × (Holds k (c ++ g) w × Comes (drop want bytes) w))
                  Anything)
              e (fwrite-Holds enough c (drop want bytes) got))
            (Contract-Anything (release >> say (cannot_write_to partial)))))

-- A piece, and then the rest.
pub take-pieces :
    (want n : ℕ) (c bytes : Bytes)
    → want ≤ n
    → (c ++ take want bytes) ++ take (n - want) (drop want bytes) ≡ c ++ take n bytes
take-pieces want n c bytes h =
    append_assoc c (take want bytes) (take (n - want) (drop want bytes))
    ∙ ap (λ (r : Bytes). c ++ r) (take-add want (n - want) n bytes (omega arith))

pub piece_size-le : (n : ℕ) → piece_size n ≤ n
piece_size-le n = ground arith

pub piece_size-positive : (n : ℕ) → 0 < n → 0 < piece_size n
piece_size-positive n h = ground arith

-- The contents of the partial file after `n` bytes more, which all came.
abbrev pub Extended : Key → Bytes → Bytes → ℕ → World → Type 0
Extended k c bytes n w = (n ≤ length bytes) × Holds k (c ++ take n bytes) w

-- After a piece, the rest of the loop.
rest-Extended :
    (k : Key) (c bytes : Bytes) (want n : ℕ) (m : M (Unit {0}))
    → want ≤ n
    → want ≤ length bytes
    → Triple
        (λ w. Holds k (c ++ take want bytes) w × Comes (drop want bytes) w)
        m
        (λ _. Extended k (c ++ take want bytes) (drop want bytes) (n - want))
        Anything
    → Triple
        (λ w. Holds k (c ++ take want bytes) w × Comes (drop want bytes) w)
        m
        (λ _. Extended k c bytes n)
        Anything
rest-Extended k c bytes want n m part enough t = Contract-weaken t (λ _ w (more, held). (
  omega (arith, more, length-drop want bytes),
  subst (λ (d : Bytes). Holds k d w) (take-pieces want n c bytes part) held,
))

-- The download appends the next bytes of the connection to the partial file, `remaining` in all.
pub download_loop-Extended :
    (fuel remaining : ℕ) (partial c bytes : Bytes)
    → remaining ≤ fuel
    → Triple
        (λ w. Holds (resolve partial) c w × Comes bytes w)
        (download_loop fuel remaining partial)
        (λ _. Extended (resolve partial) c bytes remaining)
        Anything
unfolding download_loop
download_loop-Extended zero zero partial c bytes h = record {
  runs = λ w (held, comes). (omega arith, rw append-nil held);
}
download_loop-Extended zero (suc r) partial c bytes h = absurd (omega arith)
download_loop-Extended (suc fuel) zero partial c bytes h = record {
  runs = λ w (held, comes). (omega arith, rw append-nil held);
}
download_loop-Extended (suc fuel) (suc r) partial c bytes h =
    let n : ℕ = suc r in
    let want : ℕ = piece_size n in
    let more : ltb 0 n ≡ true = ground arith in
    let ih =
      download_loop-Extended fuel (n - want) partial (c ++ take want bytes) (drop want bytes)
        (omega (arith, h, piece_size-le n, piece_size-positive n (omega arith))) in
    record {
      runs = λ w p.
          rw (more, Settles)
            ((Contract-bind (download_piece-Holds partial want c bytes) (λ _.
                Contract-given (λ enough.
                  rest-Extended (resolve partial) c bytes want n
                    (download_loop fuel (n - want) partial) (piece_size-le n) enough ih))).runs
              w p);
    }
