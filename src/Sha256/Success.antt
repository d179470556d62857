-- ===== src/Sha256/Success.antt =====
-- Without a fault `sha256_file` succeeds.
use retriever.Base.{
  ℕ, zero, suc, ◌+◌, ◌-◌, ◌<◌, ◌≡◌, refl, ◌∙◌, ap, subst, false, arith, List, [], ◌∷◌,
}
use retriever.Base.{some, length, take, drop, length-drop}
use retriever.Os.World.{World, Bytes, regular}
use retriever.Os.Program.{Run, ok, ◌>>=◌, local_array}
use retriever.Os.Files.{fread, lookup, resolve, open_read, release}
use retriever.Os.Triples.{Ends}
use retriever.Sha256.Context.{Ctx, sha256_init, sha256_update, sha256_final}
use retriever.Sha256.Padding.{sha256}
use retriever.Sha256.File.{buf_size, hash_loop, sha256_file}
use retriever.Sha256.Reading.{HashOf, SameFiles, sha256_file-HashOf}

-- A world where no call fails.
abbrev pub calm : World → World
calm w = record w { faults = [] }

pub hash_loop_ok :
    (fuel : ℕ) (ctx : Ctx) (rest : List ℕ) (w : World)
    → length rest < fuel
    → (last : Ctx) × (hash_loop fuel ctx (record { rest = rest; failed = false }) (calm w)
        ≡ ok (last, record { rest = []; failed = false }) (calm w))
unfolding hash_loop fread
hash_loop_ok zero ctx rest w h = absurd (omega arith)
hash_loop_ok (suc fuel) ctx [] w h = (ctx, refl)
hash_loop_ok (suc fuel) ctx (b ∷ bs) w h =
    hash_loop_ok fuel (sha256_update ctx (take buf_size (b ∷ bs))) (drop buf_size (b ∷ bs)) w
      (omega (arith, length-drop buf_size (b ∷ bs)))

-- Whatever the result of a run that returns is.
returned-sha256 :
    (path c digest : Bytes) (w w' : World)
    → lookup (resolve path) w.files ≡ some (regular c)
    → sha256_file path w ≡ ok digest w'
    → digest ≡ sha256 c
returned-sha256 path c digest w w' stored e =
    let (same, (d, (stored', hashed))) =
      subst (λ (r : Run Bytes). Ends (HashOf (resolve path) w.files) (SameFiles w.files) r) e
        (sha256_file-HashOf path w) in
    let equal : d ≡ c = cc in hashed ∙ ap (λ (b : Bytes). sha256 b) equal

-- Some digest is returned.
returns_some :
    (path c : Bytes) (w : World)
    → lookup (resolve path) w.files ≡ some (regular c)
    → (digest : Bytes) × (sha256_file path (calm w) ≡ ok digest (calm w))
unfolding sha256_file open_read release
returns_some path c w stored =
    let opened : World = record w { handles = w.handles + 1 } in
    let closed : w.handles + 1 - 1 ≡ w.handles = omega arith in
    let (last, loop) =
      hash_loop_ok (suc (length c)) (sha256_init (local_array 64 (calm opened))) c opened
        (omega arith) in
    (
      sha256_final last,
      rw (stored, ◌>>=◌)
          (rw (loop, ◌>>=◌)
            (ap (λ (n : ℕ). ok (sha256_final last) (record (calm w) { handles = n })) closed)),
    )

-- Where no call of the C library fails and a regular file stands at the path, `sha256_file` returns
-- 0 with the SHA-256 of its contents, and everything is as before.
pub sha256_file-sha256 :
    (path c : Bytes) (w : World)
    → lookup (resolve path) w.files ≡ some (regular c)
    → sha256_file path (calm w) ≡ ok (sha256 c) (calm w)
sha256_file-sha256 path c w stored =
    let (digest, e) = returns_some path c w stored in
    e ∙ ap (λ (d : Bytes). ok d (calm w)) (returned-sha256 path c digest (calm w) (calm w) stored e)
