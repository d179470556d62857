-- ===== src/Sha256/File.antt =====
-- c/sha256.c, `sha256_file`.
use retriever.Base.{ℕ, zero, suc, [], ◌∷◌, if◌then◌else◌, length}
use retriever.Os.World.{Bytes}
use retriever.Os.Program.{M, Run, ok, err, waits, pure, fail, ◌>>=◌, ◌>>◌, local_array}
use retriever.Os.Files.{Stream, open_read, fread, release}
use retriever.Sha256.Context.{Ctx, sha256_init, sha256_update, sha256_final}

abbrev pub buf_size : ℕ
buf_size = 65536

-- `while ((got = fread(…)) > 0)`, with fuel: the stream at the end, for its error flag.
unfoldable pub hash_loop : ℕ → Ctx → Stream → M (Ctx × Stream)
hash_loop zero ctx s w = waits w
hash_loop (suc fuel) ctx s w = elim (fread buf_size s w) as (λ _. Run (Ctx × Stream)) [
  | ok ([], s') w' ↦ ok (ctx, s') w'
  | ok (b ∷ bytes, s') w' ↦ hash_loop fuel (sha256_update ctx (b ∷ bytes)) s' w'
  | err w' ↦ err w'
  | waits w' ↦ waits w'
]

abbrev pub finish_hash : Ctx × Stream → M Bytes
finish_hash (ctx, s) = release >> (if s.failed then fail else pure (sha256_final ctx))

-- Each round but the last takes a byte at least.
unfoldable pub sha256_file : Bytes → M Bytes
sha256_file path = do
  s ← open_read path
  r ← (λ w. hash_loop (suc (length s.rest)) (sha256_init (local_array 64 w)) s w)
  finish_hash r
