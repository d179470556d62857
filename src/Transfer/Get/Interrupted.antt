-- ===== src/Transfer/Get/Interrupted.antt =====
-- What the partial file holds when a download is interrupted.
use retriever.Base.{ℕ, zero, suc, ◌+◌, ◌-◌, ◌≤◌, ◌≡◌, refl, ◌∙◌, ap, subst, arith}
use retriever.Base.{Bool-cases, inl, inr, length, take, drop, true, ltb, leb, leb→le, ◌++◌}
use retriever.Base.{append_assoc, append-nil, take-add}
use retriever.Os.World.{World, Bytes, Key, cannot_write_to}
use retriever.Os.Program.{M, Run, ok, err, waits, ◌>>◌, ◌on_error◌, say, draw}
use retriever.Os.Files.{resolve, fwrite, release}
use retriever.Os.Lookup.{lookup-insert}
use retriever.Os.Triples.{Settles, Contract, Contract-bind, Contract-then, Contract-on_error}
use retriever.Socket.{read_exact}
use retriever.Socket.Stream.{Ending, open_ended, cut, shut, stream, ending, advance, stream-advance}
use retriever.Socket.Read.{stop, read_exact_full, read_exact_short}
use retriever.Transfer.Get.{download_piece, piece_size, download_loop}
use retriever.Transfer.Get.Incoming.{Comes}
use retriever.Transfer.Get.Appending.{Holds, piece_size-le, piece_size-positive}

-- A regular file with `c`, and the bytes that are still to come.
abbrev Midway : Key → Bytes → Bytes → World → Type 0
Midway k c bytes w = Holds k c w × Comes bytes w

-- The file is `c` with some of the next `n` bytes behind it, the first of them and in order.
abbrev pub Prefixed : Key → Bytes → Bytes → ℕ → World → Type 0
Prefixed k c bytes n w = (m : ℕ) × ((m ≤ n) × Holds k (c ++ take m bytes) w)

Holds-Prefixed :
    (k : Key) (c bytes : Bytes) (n : ℕ) (w : World) → Holds k c w → Prefixed k c bytes n w
Holds-Prefixed k c bytes n w held = (0, (omega arith, rw append-nil held))

Settles-stop :
    (k : Key) (c : Bytes) (Q : Bytes → World → Type 0) (e : Ending) (w : World)
    → Holds k c w
    → Settles (Holds k c) Q (Holds k c) (stop e w)
Settles-stop k c Q open_ended w h = h
Settles-stop k c Q cut w h = h
Settles-stop k c Q shut w h = h

module _ (k : Key) (c bytes : Bytes) where
  read_exact-Midway :
      (n : ℕ)
      → Contract
          (Holds k c)
          (Midway k c bytes)
          (read_exact n)
          (λ got w. (got ≡ take n bytes) × Midway k c (drop n bytes) w)
          (Holds k c)
  read_exact-Midway n = record {
    runs = λ w (held, comes). elim (Bool-cases (leb n (length (stream w.inbox)))) [
      | inl enough ↦ rw (read_exact_full n w (leb→le _ _ enough)) (
        ap (λ (s : Bytes). take n s) comes,
        (held, stream-advance n w.inbox (leb→le _ _ enough) ∙ ap (λ (s : Bytes). drop n s) comes),
      )
      | inr missing ↦
          rw (read_exact_short n w (ground arith))
            (Settles-stop k c _ (ending w.inbox) (record w { inbox = advance n w.inbox }) held)
    ];
  }

  close-Holds : {W E : World → Type 0} → Contract W (Holds k c) release (λ _. Holds k c) E
  unfolding release
  close-Holds = record { runs = λ w u. u }

fwrite-Midway :
    (partial c bytes more : Bytes)
    → Contract
        (Holds (resolve partial) c)
        (Midway (resolve partial) c bytes)
        (fwrite partial more)
        (λ _. Midway (resolve partial) (c ++ more) bytes)
        (Holds (resolve partial) c)
unfolding fwrite
fwrite-Midway partial c bytes more = record {
  runs = λ w (held, comes). elim (Bool-cases (draw w.faults)) [
    | inl e ↦ rw (e, Settles) held
    | inr e ↦ rw (e, Settles) (rw held (lookup-insert _ _ _), comes)
  ];
}

-- A piece is appended whole or not at all.
download_piece-Midway :
    (partial c bytes : Bytes) (want : ℕ)
    → Contract
        (Holds (resolve partial) c)
        (Midway (resolve partial) c bytes)
        (download_piece partial want)
        (λ _. Midway (resolve partial) (c ++ take want bytes) (drop want bytes))
        (Holds (resolve partial) c)
unfolding download_piece
download_piece-Midway partial c bytes want =
    let k : Key = resolve partial in
    Contract-bind
      (Contract-on_error (read_exact-Midway k c bytes want)
        (Contract-then (close-Holds k c bytes) (record { runs = λ w u. u })))
      (λ got. record {
        runs = λ w (e, p).
            subst
              (λ (g : Bytes).
                Settles (Holds k c) (λ _. Midway k (c ++ g) (drop want bytes)) (Holds k c)
                  ((fwrite partial got on_error (release >> say (cannot_write_to partial))) w))
              e
              ((Contract-on_error (fwrite-Midway partial c (drop want bytes) got)
                  (Contract-then (close-Holds k c bytes) (record { runs = λ w u. u }))).runs
                w p);
      })

module _ (k : Key) (c bytes : Bytes) (want n : ℕ) (part : want ≤ n) where
  -- More after a piece is more from the beginning.
  Prefixed-piece :
      (w : World)
      → Prefixed k (c ++ take want bytes) (drop want bytes) (n - want) w
      → Prefixed k c bytes n w
  Prefixed-piece w (m, (some_more, held)) = (
    want + m,
    (
      omega (arith, some_more, part),
      subst (λ (d : Bytes). Holds k d w)
          (append_assoc c (take want bytes) (take m (drop want bytes))
            ∙ ap (λ (r : Bytes). c ++ r) (take-add want m (want + m) bytes refl))
          held,
    ),
  )

-- What holds wherever a run stops may be read from further back.
Settles-map :
    {A : Type 0} (P R : World → Type 0) (r : Run A)
    → ((w : World) → P w → R w)
    → Settles P (λ _. P) P r
    → Settles R (λ _. R) R r
Settles-map P R (ok a w) t l = t w l
Settles-map P R (err w) t l = t w l
Settles-map P R (waits w) t l = t w l

-- A run that keeps within a part of the file keeps within the file.
Settles-first :
    {A : Type 0} (k : Key) (c bytes : Bytes) (n : ℕ) (Q : A → World → Type 0) (r : Run A)
    → Settles (Holds k c) Q (Holds k c) r
    → Settles (Prefixed k c bytes n) Q (Prefixed k c bytes n) r
Settles-first k c bytes n Q (ok a w) l = l
Settles-first k c bytes n Q (err w) l = Holds-Prefixed k c bytes n w l
Settles-first k c bytes n Q (waits w) l = Holds-Prefixed k c bytes n w l

loop-Prefixed :
    (fuel remaining : ℕ) (partial c bytes : Bytes)
    → remaining ≤ fuel
    → Contract
        (Prefixed (resolve partial) c bytes remaining)
        (Midway (resolve partial) c bytes)
        (download_loop fuel remaining partial)
        (λ _. Prefixed (resolve partial) c bytes remaining)
        (Prefixed (resolve partial) c bytes remaining)
unfolding download_loop
loop-Prefixed zero zero partial c bytes h = record {
  runs = λ w p. Holds-Prefixed (resolve partial) c bytes 0 w p.0;
}
loop-Prefixed zero (suc r) partial c bytes h = absurd (omega arith)
loop-Prefixed (suc fuel) zero partial c bytes h = record {
  runs = λ w p. Holds-Prefixed (resolve partial) c bytes 0 w p.0;
}
loop-Prefixed (suc fuel) (suc r) partial c bytes h =
    let k : Key = resolve partial in
    let n : ℕ = suc r in
    let want : ℕ = piece_size n in
    let more : ltb 0 n ≡ true = ground arith in
    let rest : M (Unit {0}) = download_loop fuel (n - want) partial in
    let ih =
      loop-Prefixed fuel (n - want) partial (c ++ take want bytes) (drop want bytes)
        (omega (arith, h, piece_size-le n, piece_size-positive n (omega arith))) in
    let onwards : Contract (Prefixed k c bytes n)
        (Midway k (c ++ take want bytes) (drop want bytes)) rest (λ _. Prefixed k c bytes n)
        (Prefixed k c bytes n) =
      record {
        runs = λ w p.
            Settles-map (Prefixed k (c ++ take want bytes) (drop want bytes) (n - want))
              (Prefixed k c bytes n) (rest w)
              (λ v q. Prefixed-piece k c bytes want n (piece_size-le n) v q) (ih.runs w p);
      } in
    record {
      runs = λ w p.
          rw (more, Settles)
            ((Contract-then
                (record {
                  runs = λ v q.
                      Settles-first k c bytes n
                        (λ _. Midway k (c ++ take want bytes) (drop want bytes))
                        (download_piece partial want v)
                        ((download_piece-Midway partial c bytes want).runs v q);
                })
                onwards).runs
              w p);
    }

-- Wherever a download stops, at a wait for a silent server, at a failed read or write, or at its
-- end, the partial file is what it was with an initial part of the announced bytes behind it, the
-- first that came and in their order: nothing else is written and nothing is lost in between. It
-- starts from a regular file `c` at the partial's name and bytes that come from the server, and the
-- fuel is the number of bytes to download.
pub download_loop-Prefixed :
    (n : ℕ) (partial c : Bytes) (w : World)
    → Holds (resolve partial) c w
    → Settles
        (Prefixed (resolve partial) c (stream w.inbox) n)
        (λ _. Prefixed (resolve partial) c (stream w.inbox) n)
        (Prefixed (resolve partial) c (stream w.inbox) n)
        (download_loop n n partial w)
download_loop-Prefixed n partial c w held =
    (loop-Prefixed n n partial c (stream w.inbox) (omega arith)).runs w (held, refl)
