-- ===== src/Sha256/Harness.antt =====
-- c/sha256_main.c: the test harness, which hashes its input and prints the hash.
pub mod Digest
use retriever.Base.{ℕ, suc, length, if◌then◌else◌}
use retriever.Os.World.{stdin_failed, hashed}
use retriever.Os.Program.{M, pure, ◌>>=◌, ◌>>◌, say, local_array}
use retriever.Os.Files.{Stream}
use retriever.Sha256.Context.{Ctx, sha256_init, sha256_final}
use retriever.Sha256.Hex.{sha256_hex}
use retriever.Sha256.File.{hash_loop}

-- After the loop, by the error flag of the input.
abbrev pub print_hash : Ctx × Stream → M ℕ
print_hash (ctx, stdin) =
    if stdin.failed
    then say stdin_failed >> pure 1
    else say (hashed (sha256_hex (sha256_final ctx) 32)) >> pure 0

-- `main`; its loop over the input is the one of `sha256_file`, with a round for each byte and one
-- more.
unfoldable pub harness : Stream → M ℕ
harness stdin w =
    (hash_loop (suc (length stdin.rest)) (sha256_init (local_array 64 w)) stdin >>= print_hash) w
