-- ===== src/Tests/Hash.antt =====
-- SHA-256 on the vectors of FIPS 180-4, and its theorems at small inputs.
use retriever.Base.{ℕ, ◌≡◌, refl, sym, ◌∙◌, List, [], ◌∷◌, foldl, flatten, replicate}
use retriever.Base.{none, true, false}
use retriever.Os.World.{World, hashed}
use retriever.Os.Program.{ok}
use retriever.Os.Triples.{Ends}
use retriever.Sha256.Hex.{sha256_hex}
use retriever.Sha256.Success.{calm}
use retriever.Sha256.Harness.{harness}
use retriever.Sha256.Harness.Digest.{input, Printed, harness-Printed, harness-sha256}
use retriever.Base.Memory.{memcpy}
use retriever.Sha256.Block
use retriever.Sha256.Context
use retriever.Sha256.Context.{sha256_init, sha256_update, sha256_final}
use retriever.Sha256.Padding.{sha256}
use retriever.Sha256.Streaming.{sha256_final-stream}

abbrev pub abc : List ℕ
abc = b'a' ∷ b'b' ∷ b'c' ∷ []

-- The context over stack memory that is not zero.
abbrev dirty : List ℕ
dirty = replicate 64 0xaa

stream_hash : List (List ℕ) → List ℕ
unfolding memcpy Block.rotr Block.complement Block.ch Block.maj Block.bsig0 Block.bsig1 Block.ssig0
    Block.ssig1 Block.block_word Block.expanded_word Block.load_words Block.expand_words Block.round
    Block.rounds Block.sha256_block Context.sha256_init Context.fill_block Context.top_up
    Context.whole_blocks Context.keep_rest Context.sha256_update Context.pad_zeros
    Context.length_bytes Context.state_bytes Context.sha256_final
stream_hash chunks = sha256_final (foldl sha256_update (sha256_init dirty) chunks)

abbrev pub abc_digest : List ℕ
abc_digest =
    0xba ∷ 0x78 ∷ 0x16 ∷ 0xbf ∷ 0x8f ∷ 0x01 ∷ 0xcf ∷ 0xea ∷ 0x41 ∷ 0x41 ∷ 0x40 ∷ 0xde ∷ 0x5d ∷ 0xae
    ∷ 0x22 ∷ 0x23 ∷ 0xb0 ∷ 0x03 ∷ 0x61 ∷ 0xa3 ∷ 0x96 ∷ 0x17 ∷ 0x7a ∷ 0x9c ∷ 0xb4 ∷ 0x10 ∷ 0xff
    ∷ 0x61 ∷ 0xf2 ∷ 0x00 ∷ 0x15 ∷ 0xad ∷ []

abc_in_one : stream_hash (abc ∷ []) ≡ abc_digest
unfolding stream_hash
abc_in_one = refl

-- The specification gives the same.
pub sha256-abc : sha256 abc ≡ abc_digest
unfolding stream_hash flatten
sha256-abc = sym (sha256_final-stream dirty (abc ∷ []) refl) ∙ abc_in_one

abc_in_parts : stream_hash ((b'a' ∷ []) ∷ [] ∷ (b'b' ∷ b'c' ∷ []) ∷ []) ≡ abc_digest
unfolding stream_hash
abc_in_parts = refl

sha256_final-stream_example :
    sha256_final (foldl sha256_update (sha256_init dirty) (abc ∷ abc ∷ []))
    ≡ sha256 (flatten (abc ∷ abc ∷ []))
sha256_final-stream_example = sha256_final-stream dirty (abc ∷ abc ∷ []) refl

abbrev silent : World
silent = record {
  inbox = [];
  rooms = [];
  sent = [];
  addresses = λ host port. none;
  sockets = 0;
  files = [];
  handles = 0;
  stack = dirty;
  heap = 0;
  faults = false ∷ true ∷ [];
  log = [];
}

harness-Printed_example : Ends (Printed abc []) (λ _. ⊥) (harness (input abc) silent)
harness-Printed_example = harness-Printed abc silent

harness-sha256_example :
    harness (input abc) (calm silent)
    ≡ ok 0 (record (calm silent) { log = hashed (sha256_hex (sha256 abc) 32) ∷ [] })
harness-sha256_example = harness-sha256 abc silent
