-- ===== src/Transfer/Get/Completing.antt =====
-- `rtrv_do_get` without faults, from the partial file to the destination.
use retriever.Base.{ℕ, zero, suc, ◌+◌, ◌-◌, ◌≤◌, ◌≡◌, refl, ap, ◌∙◌, sym, subst, arith}
use retriever.Base.{Bool, true, false, Bool-cases, inl, inr, List, [], ◌∷◌, Option, some, none}
use retriever.Base.{length, length-drop, take, drop, ltb, bytes_eq, bytes_eq_refl}
use retriever.Os.World.{
  World, Bytes, Key, Node, regular, special, cannot_rename, interrupted, cannot_write_to,
}
use retriever.Os.Program.{Run, ok, err, ◌>>◌, say, draw, drawn}
use retriever.Os.Files.{lookup, insert, erase, key_eq, resolve, remove, open_write, fwrite}
use retriever.Os.Files.{emptied, close_written, rename, release}
use retriever.Os.Lookup.{lookup-insert, lookup-erase_other, key_eq→eq}
use retriever.Os.Triples.{Settles, Contract, Anything, Contract-bind}
use retriever.Os.Triples.{Contract-on_error, Contract-weaken, Contract-if}
use retriever.Os.Triples.{Contract-also}
use retriever.Os.Calm.{needless, IsCalm, Never, drawn-none}
use retriever.Sha256.Padding.{sha256}
use retriever.Sha256.File.{sha256_file}
use retriever.Sha256.Success.{calm, sha256_file-sha256}
use retriever.Transfer.Get.{download_piece, piece_size, download_loop, publish, forget}
use retriever.Transfer.Get.Incoming.{Comes}
use retriever.Transfer.Get.Appending.{Holds, download_loop-Extended}
use retriever.Transfer.Get.Appending.{piece_size-le}
use retriever.Transfer.Get.Replied.{Coming, read_exact-Coming}

-- A place where a file can be opened for writing.
abbrev pub IsPlain : Option Node → Type 0
IsPlain none = Unit
IsPlain (some (regular bytes)) = Unit
IsPlain (some (special size)) = ⊥

abbrev pub Plain : Key → World → Type 0
Plain k w = IsPlain (lookup k w.files)

lookup-erase : (k j : Key) (m : List (Key × Node)) → key_eq k j ≡ true → lookup k (erase j m) ≡ none
unfolding lookup erase
lookup-erase k j [] h = refl
lookup-erase k j ((i, u) ∷ m) h = elim (Bool-cases (key_eq j i)) [
  | inl e ↦ rw e (lookup-erase k j m h)
  | inr e ↦ rw e (rw (ap (λ (x : Key). key_eq x i) (key_eq→eq k j h) ∙ e) (lookup-erase k j m h))
]

erase-IsPlain :
    (k j : Key) (m : List (Key × Node)) → IsPlain (lookup k m) → IsPlain (lookup k (erase j m))
erase-IsPlain k j m h = elim (Bool-cases (key_eq k j)) [
  | inl e ↦ rw (lookup-erase k j m e) tt
  | inr e ↦ rw (lookup-erase_other k j m e) h
]

module _ {bytes : Bytes} (k : Key) where
  remove-Plain :
      (path : Bytes)
      → Contract Never
          (λ w. Plain k w × Coming bytes w)
          (remove path)
          (λ _ w. Plain k w × Coming bytes w)
          Never
  unfolding remove
  remove-Plain path = record {
    runs = λ w (plain, ((clear, sound), comes)).
        rw (ap (λ (f : List Bool). draw f) clear)
          (erase-IsPlain k (resolve path) w.files plain, ((drawn-none clear, sound), comes));
  }

  pub forget-Plain :
      (existing : Option Bytes)
      → Contract Never
          (λ w. Plain k w × Coming bytes w)
          (forget existing)
          (λ _ w. Plain k w × Coming bytes w)
          Never
  forget-Plain none = record { runs = λ w p. p }
  forget-Plain (some path) = remove-Plain path

  Settles-emptied :
      (old : Option Node) (w : World)
      → IsPlain old
      → IsCalm w
      → Comes bytes w
      → Settles Never
          (λ (_ : Unit {0}) w'. Holds k [] w' × Coming bytes w')
          Never
          (elim (emptied old) as (λ _. Run (Unit {0})) [
            | none ↦ err w
            | some node ↦
                ok tt (record w { files = insert k node w.files; handles = w.handles + 1 })
          ])
  Settles-emptied none w h c comes = (lookup-insert k (regular []) w.files, (c, comes))
  Settles-emptied (some (regular old)) w h c comes =
      (lookup-insert k (regular []) w.files, (c, comes))
  Settles-emptied (some (special size)) w h c comes = absurd h

pub open_write-Coming :
    (partial bytes : Bytes)
    → Contract Never
        (λ w. Plain (resolve partial) w × Coming bytes w)
        (open_write partial false)
        (λ _ w. Holds (resolve partial) [] w × Coming bytes w)
        Never
unfolding open_write
open_write-Coming partial bytes = record {
  runs = λ w (plain, ((clear, sound), comes)). rw (ap (λ (f : List Bool). draw f) clear) (
      Settles-emptied (resolve partial) (lookup (resolve partial) w.files)
        (record w { faults = drawn w.faults }) plain (drawn-none clear, sound) comes);
}

fwrite-Coming :
    (partial more bytes : Bytes)
    → Contract Never (Coming bytes) (fwrite partial more) (λ _. Coming bytes) Never
unfolding fwrite
fwrite-Coming partial more bytes = record {
  runs = λ w ((clear, sound), comes).
      rw (ap (λ (f : List Bool). draw f) clear) ((drawn-none clear, sound), comes);
}

download_piece-Coming :
    (partial : Bytes) (want : ℕ) (bytes : Bytes)
    → want ≤ length bytes
    → Contract Never
        (Coming bytes)
        (download_piece partial want)
        (λ _. Coming (drop want bytes))
        Never
unfolding download_piece
download_piece-Coming partial want bytes h =
    Contract-bind
      (Contract-on_error (read_exact-Coming want bytes h) (needless (release >> say interrupted)))
      (λ got.
        Contract-on_error
          (record { runs = λ w p. (fwrite-Coming partial got (drop want bytes)).runs w p.1 })
          (needless (release >> say (cannot_write_to partial))))

-- With all the bytes to come, the loop ends, and nothing has failed.
download_loop-Coming :
    (fuel remaining : ℕ) (partial bytes : Bytes)
    → remaining ≤ length bytes
    → Contract Never (Coming bytes) (download_loop fuel remaining partial) (λ _. IsCalm) Never
unfolding download_loop
download_loop-Coming zero remaining partial bytes h = record { runs = λ w p. p.0 }
download_loop-Coming (suc fuel) remaining partial bytes h = elim (Bool-cases (ltb 0 remaining)) [
  | inl more ↦ record {
    runs = λ w p.
        let want : ℕ = piece_size remaining in
        let part : want ≤ remaining = piece_size-le remaining in
        rw (more, Settles)
          ((Contract-bind (download_piece-Coming partial want bytes (omega (arith, h, part))) (λ _.
              download_loop-Coming fuel (remaining - want) partial (drop want bytes)
                (omega (arith, h, part, length-drop want bytes)))).runs
            w p);
  }
  | inr done ↦ record { runs = λ w p. rw (done, Settles) p.0 }
]

-- The whole body is in the partial file.
pub download_loop-Body :
    (n : ℕ) (partial bytes : Bytes)
    → n ≤ length bytes
    → Contract Never
        (λ w. Holds (resolve partial) [] w × Coming bytes w)
        (download_loop n n partial)
        (λ _ w. Holds (resolve partial) (take n bytes) w × IsCalm w)
        Never
download_loop-Body n partial bytes h =
    Contract-weaken
      (record {
        runs = λ w (held, (c, comes)).
            (Contract-also (download_loop-Extended n n partial [] bytes (omega arith))
                (download_loop-Coming n n partial bytes h)).runs
              w ((held, comes), (c, comes));
      })
      (λ _ w ((enough, held), c). (held, c))

module _ (partial c : Bytes) where
  -- The finished partial file.
  abbrev pub Finished : World → Type 0
  Finished w = Holds (resolve partial) c w × IsCalm w

  pub close_written-Finished : Contract Never Finished close_written (λ _. Finished) Never
  unfolding close_written
  close_written-Finished = record {
    runs = λ w (held, (clear, sound)).
        rw (ap (λ (f : List Bool). draw f) clear) (held, (drawn-none clear, sound));
  }

  pub sha256_file-Finished :
      Contract Never Finished (sha256_file partial) (λ d w. (d ≡ sha256 c) × Finished w) Never
  sha256_file-Finished = record {
    runs = λ w (held, (clear, sound)).
        let same : w ≡ calm w = ap (λ (f : List Bool). record w { faults = f }) clear in
        subst
          (λ (v : World).
            Settles Never (λ d w'. (d ≡ sha256 c) × Finished w') Never (sha256_file partial v))
          (sym same) (rw (sha256_file-sha256 partial c w held) (refl, (held, (refl, sound))));
  }

  rename-Finished :
      (dest : Bytes) → Contract Never Finished (rename partial dest) (λ _. Anything) Never
  unfolding rename
  rename-Finished dest = record {
    runs = λ w (held, (clear, sound)). rw (ap (λ (f : List Bool). draw f) clear, held) tt;
  }

  pub publish-Finished :
      (dest actual digest : Bytes)
      → actual ≡ digest
      → Contract Never Finished (publish partial dest actual digest) (λ _. Anything) Never
  unfolding publish
  publish-Finished dest actual digest e =
      let equal : bytes_eq actual digest ≡ true =
        subst (λ (d : Bytes). bytes_eq actual d ≡ true) e (bytes_eq_refl actual) in
      Contract-if (bytes_eq actual digest)
        (λ _.
          Contract-on_error (rename-Finished dest) (needless (say (cannot_rename partial dest))))
        (λ other. absurd cc)
