-- ===== src/Transfer/Requests.antt =====
-- The payloads of GET and PUT, as the tables of docs/PROTOCOL.md lay them out.
use retriever.Base.{ℕ, ◌+◌, ◌≤◌, ◌≡◌, refl, ap, ◌∙◌, arith, ◌++◌, append_assoc, length, take}
use retriever.Base.Memory.{memcpy, take-memcpy, length-memcpy}
use retriever.Packing.{put_u16, put_u64}
use retriever.Packing.Layout.{big_endian, length-big_endian, put_u64-memcpy, put_u16-memcpy}
use retriever.Os.World.{World, Bytes}
use retriever.Os.Program.{local_array}
use retriever.Frame.{write_frame, t_get, t_put}
use retriever.Frame.Encoding.{length-local_array}
use retriever.Transfer.Path.{max_name}
use retriever.Transfer.Get.{Resume, send_get, fill_get_request}
use retriever.Transfer.Put.{send_put, fill_put_request}

-- A number, bytes of a fixed size, and a name with its length before it.
abbrev pub request : ℕ → Bytes → Bytes → Bytes
request v mid name = big_endian 8 v ++ (mid ++ (big_endian 2 (length name) ++ name))

module _ (memory mid name : Bytes) (v k : ℕ) (fixed_size : length mid ≡ k)
    (room : 8 + k + 2 + length name ≤ length memory) where
  abbrev numbered : Bytes
  numbered = put_u64 memory 0 v

  abbrev fixed : Bytes
  fixed = memcpy numbered 8 mid

  abbrev sized : Bytes
  sized = put_u16 fixed (8 + k) (length name)

  length-numbered : length numbered ≡ length memory
  length-numbered = rw (put_u64-memcpy memory 0 v) (length-memcpy memory 0 (big_endian 8 v))

  length-fixed : length fixed ≡ length memory
  length-fixed = length-memcpy numbered 8 mid ∙ length-numbered

  length-sized : length sized ≡ length memory
  length-sized =
      rw (put_u16-memcpy fixed (8 + k) (length name))
        (length-memcpy fixed (8 + k) (big_endian 2 (length name)) ∙ length-fixed)

  take-numbered : take 8 numbered ≡ big_endian 8 v
  take-numbered = rw (put_u64-memcpy memory 0 v) (
      take-memcpy memory (big_endian 8 v) 0 8 (omega (arith, length-big_endian 8 v))
        (omega (arith, room)))

  take-fixed : take (8 + k) fixed ≡ big_endian 8 v ++ mid
  take-fixed =
      take-memcpy numbered mid 8 (8 + k) (omega (arith, fixed_size))
        (omega (arith, room, length-numbered))
      ∙ ap (λ (b : Bytes). b ++ mid) take-numbered

  take-sized : take (8 + k + 2) sized ≡ (big_endian 8 v ++ mid) ++ big_endian 2 (length name)
  take-sized = rw (put_u16-memcpy fixed (8 + k) (length name)) (
      take-memcpy fixed (big_endian 2 (length name)) (8 + k) (8 + k + 2)
        (omega (arith, length-big_endian 2 (length name))) (omega (arith, room, length-fixed))
      ∙ ap (λ (b : Bytes). b ++ big_endian 2 (length name)) take-fixed)

  filled-eq : take (8 + k + 2 + length name) (memcpy sized (8 + k + 2) name) ≡ request v mid name
  filled-eq =
      take-memcpy sized name (8 + k + 2) (8 + k + 2 + length name) refl
        (omega (arith, room, length-sized))
      ∙ ap (λ (b : Bytes). b ++ name) take-sized
      ∙ append_assoc (big_endian 8 v ++ mid) (big_endian 2 (length name)) name
      ∙ append_assoc (big_endian 8 v) mid (big_endian 2 (length name) ++ name)

-- For a token of 8 bytes and a name of at most 255, the frame that `rtrv_do_get` sends has exactly
-- the layout of the protocol, whatever the request array held before it was filled.
pub send_get-eq :
    (resume : Resume) (name : Bytes) (w : World)
    → length resume.token ≡ 8
    → length name ≤ max_name
    → send_get resume name w ≡ write_frame t_get (request resume.offset resume.token name) w
unfolding send_get fill_get_request
send_get-eq resume name w token_fits name_fits =
    ap (λ (b : Bytes). write_frame t_get b w)
      (filled-eq (local_array 273 w) resume.token name resume.offset 8 token_fits
        (omega (arith, length-local_array 273 w, name_fits)))

-- For a hash of 32 bytes and a name of at most 255, the frame that `rtrv_do_put` sends has exactly
-- the layout of the protocol, whatever the request array held before it was filled.
pub send_put-eq :
    (file_size : ℕ) (digest name : Bytes) (w : World)
    → length digest ≡ 32
    → length name ≤ max_name
    → send_put file_size digest name w ≡ write_frame t_put (request file_size digest name) w
unfolding send_put fill_put_request
send_put-eq file_size digest name w digest_fits name_fits =
    ap (λ (b : Bytes). write_frame t_put b w)
      (filled-eq (local_array 297 w) digest name file_size 32 digest_fits
        (omega (arith, length-local_array 297 w, name_fits)))
