-- ===== src/Sha256/Harness/Digest.antt =====
-- The harness of c/sha256_main.c prints the SHA-256 of its input.
use retriever.Base.{ℕ, suc, ◌≡◌, refl, ap, ◌⊎◌, inl, inr, Bool, true, false, if◌then◌else◌}
use retriever.Base.{List, [], ◌∷◌, ◌++◌, length, arith}
use retriever.Os.World.{World, Bytes, Message, stdin_failed, hashed}
use retriever.Base.{subst}
use retriever.Os.Program.{Run, ok, ◌>>=◌}
use retriever.Sha256.Success.{calm, hash_loop_ok}
use retriever.Os.Program.{pure, ◌>>◌, say, local_array}
use retriever.Os.Files.{Stream, fread}
use retriever.Os.Triples.{Triple, Ends, Ends-bind, Ends-both}
use retriever.Sha256.Context.{Ctx, sha256_init, sha256_final}
use retriever.Sha256.Padding.{sha256}
use retriever.Sha256.Hex.{sha256_hex}
use retriever.Sha256.File.{hash_loop}
use retriever.Sha256.Streaming.{Fed-init, Fed-final}
use retriever.Sha256.Keeping.{hash_loop-keeps}
use retriever.Sha256.Reading.{Hashed, hash_loop-Hashed, local_array-room}
use retriever.Sha256.Harness.{print_hash, harness}

-- A stream at its beginning.
abbrev pub input : Bytes → Stream
input bytes = record { rest = bytes; failed = false }

abbrev Logged : List Message → World → Type 0
Logged log w = w.log ≡ log

fread-Logged :
    {log : List Message} {E : World → Type 0} (n : ℕ) (f : Stream)
    → Triple (Logged log) (fread n f) (λ _. Logged log) E
unfolding fread
fread-Logged n f = record { runs = λ w u. ground (arith, u) }

-- The one line that is printed, and the exit status with it.
abbrev pub Printed : Bytes → List Message → ℕ → World → Type 0
Printed bytes log code w =
    ((code ≡ 0) × (w.log ≡ log ++ (hashed (sha256_hex (sha256 bytes) 32) ∷ [])))
    ⊎ ((code ≡ 1) × (w.log ≡ log ++ (stdin_failed ∷ [])))

module _ (bytes : Bytes) (log : List Message) where
  printed :
      (failed : Bool) (ctx : Ctx) (w : World)
      → w.log ≡ log
      → (failed ≡ false → sha256_final ctx ≡ sha256 bytes)
      → Ends
          (Printed bytes log)
          (λ _. ⊥)
          ((if failed
              then say stdin_failed >> pure 1
              else say (hashed (sha256_hex (sha256_final ctx) 32)) >> pure 0)
            w)
  printed true ctx w same digest =
      inr (refl, ap (λ (l : List Message). l ++ (stdin_failed ∷ [])) same)
  printed false ctx w same digest = inl (refl, rw (same, digest refl))

-- Whatever the faults, the harness ends: with status 0 and the SHA-256 of its whole input printed in
-- hexadecimal, or with status 1 and the message that the input could not be read.
pub harness-Printed :
    (bytes : Bytes) (w : World) → Ends (Printed bytes w.log) (λ _. ⊥) (harness (input bytes) w)
unfolding harness
harness-Printed bytes w =
    let context : Ctx = sha256_init (local_array 64 w) in
    Ends-bind _ (Printed bytes w.log) (λ _. ⊥) print_hash _
      (Ends-both (λ _. Logged w.log) (Hashed w.files bytes) (λ _. ⊥) (λ _. ⊥)
        (hash_loop (suc (length bytes)) context (input bytes) w)
        ((hash_loop-keeps {I = Logged w.log} fread-Logged (suc (length bytes)) context
            (input bytes)).runs
          w refl)
        (hash_loop-Hashed (λ _. ⊥) (suc (length bytes)) context bytes [] w (omega arith)
          (Fed-init _ (local_array-room 64 w))))
      (λ (ctx, f) w' (same, (files, fed)).
        printed bytes w.log f.failed ctx w' same (λ clear. Fed-final ctx bytes (fed clear)))
      w

-- Where no read fails, the harness exits with 0 and prints the SHA-256 of its input in hexadecimal,
-- and does nothing else.
pub harness-sha256 :
    (bytes : Bytes) (w : World)
    → harness (input bytes) (calm w)
      ≡ ok 0 (record (calm w) { log = w.log ++ (hashed (sha256_hex (sha256 bytes) 32) ∷ []) })
unfolding harness
harness-sha256 bytes w =
    let context : Ctx = sha256_init (local_array 64 w) in
    let (last, loop) = hash_loop_ok (suc (length bytes)) context bytes w (omega arith) in
    let (files, fed) =
      subst (λ (r : Run (Ctx × Stream)). Ends (Hashed w.files bytes) (λ _. ⊥) r) loop
        (hash_loop-Hashed (λ _. ⊥) (suc (length bytes)) context bytes [] (calm w) (omega arith)
          (Fed-init _ (local_array-room 64 w))) in
    rw (loop, ◌>>=◌)
      (ap (λ (d : Bytes). ok 0 (record (calm w) { log = w.log ++ (hashed (sha256_hex d 32) ∷ []) }))
        (Fed-final last bytes (fed refl)))
