-- ===== src/Conversation/Offset.antt =====
-- The steps of `rtrv_do_put` around the upload: the request, the offset in the reply, the verdict.
use retriever.Base.{ℕ, zero, suc, ◌+◌, ◌^◌, ◌≤◌, ◌<◌, ◌≡◌, refl, ap, ◌∙◌, arith, not, ◌||◌}
use retriever.Base.{List, [], ◌∷◌, ◌++◌, append-nil, length, length-append}
use retriever.Base.{take-append, All, All-append, ltb, ◌==◌}
use retriever.Packing.{get_u64}
use retriever.Packing.Layout.{big_endian, length-big_endian, big_endian-All, get_u64-eq, IsByte}
use retriever.Packing.Layout.{from_big_endian, from_big_endian-big_endian}
use retriever.Os.World.{Bytes, Message, resuming_upload}
use retriever.Os.Triples.{Contract, Contract-then, Contract-if}
use retriever.Os.Calm.{Never}
use retriever.Sha256.Padding.{sha256}
use retriever.Sha256.Keeping.{length-sha256}
use retriever.Frame.{t_ok, t_put}
use retriever.Frame.Writing.{frame_bytes}
use retriever.Frame.Reading.{block}
use retriever.Transfer.Path.{max_name}
use retriever.Transfer.Requests.{request, send_put-eq}
use retriever.Transfer.Put.{send_put, read_offset, check_offset, check_verdict, payload_bytes}
use retriever.Conversation.Frames.{
  Disk, Talking, framed, write_frame-Talking, free-Talking, say-Talking,
}

payload_bytes-block : (p : Bytes) → payload_bytes (block p) ≡ p
payload_bytes-block [] = refl
payload_bytes-block (b ∷ p) = refl

-- What an upload that does not begin at the beginning prints.
abbrev pub resumed : ℕ → List Message
resumed zero = []
resumed (suc k) = resuming_upload (suc k) ∷ []

-- The server's reply to PUT: an offset, and whatever it adds.
abbrev pub go_on : ℕ → Bytes → Bytes
go_on offset extra = big_endian 8 offset ++ extra

pub length-go_on : (offset : ℕ) (extra : Bytes) → length (go_on offset extra) ≡ 8 + length extra
length-go_on offset extra =
    omega (arith, length-append (big_endian 8 offset) extra, length-big_endian 8 offset)

get_u64-go_on :
    (offset : ℕ) (extra : Bytes)
    → offset < 2 ^ 64
    → All IsByte extra
    → get_u64 (payload_bytes (block (go_on offset extra))) 0 ≡ offset
get_u64-go_on offset extra fits bytes =
    let all : All IsByte (go_on offset extra) =
      All-append IsByte (big_endian 8 offset) extra (big_endian-All 8 offset) bytes in
    ap (λ (b : Bytes). get_u64 b 0) (payload_bytes-block (go_on offset extra))
    ∙ get_u64-eq (go_on offset extra) 0 all (omega (arith, length-go_on offset extra))
    ∙ ap (λ (b : Bytes). from_big_endian 0 b)
        (take-append 8 (big_endian 8 offset) extra (length-big_endian 8 offset))
    ∙ from_big_endian-big_endian 8 offset fits

module _ {disk : Disk} {sent : Bytes} {log : List Message} {bytes : Bytes} where
  pub read_offset-Talking :
      (offset : ℕ) (extra : Bytes)
      → offset < 2 ^ 64
      → All IsByte extra
      → Contract Never
          (Talking disk sent log bytes)
          (read_offset (framed t_ok (go_on offset extra)))
          (λ n w. (n ≡ offset) × Talking disk sent log bytes w)
          Never
  unfolding read_offset
  read_offset-Talking offset extra fits all =
      Contract-if (not (t_ok == t_ok) || ltb (length (go_on offset extra)) 8)
        (λ short. absurd (ground (arith, short, length-go_on offset extra)))
        (λ _.
          Contract-then (free-Talking (block (go_on offset extra)))
            (record { runs = λ w t. (get_u64-go_on offset extra fits all, t) }))

  pub check_offset-Talking :
      (size offset : ℕ)
      → offset ≤ size
      → Contract Never
          (Talking disk sent log bytes)
          (check_offset size offset)
          (λ _. Talking disk sent (log ++ resumed offset) bytes)
          Never
  unfolding check_offset
  check_offset-Talking size zero within =
      Contract-if (ltb size 0) (λ past. absurd (ground (arith, past)))
        (λ _. record { runs = λ w t. rw append-nil t })
  check_offset-Talking size (suc k) within =
      Contract-if (ltb size (suc k)) (λ past. absurd (ground (arith, past, within)))
        (λ _.
          Contract-if (ltb 0 (suc k)) (λ _. say-Talking (resuming_upload (suc k)))
            (λ none. absurd (ground (arith, none))))

  pub check_verdict-Talking :
      (verdict : Bytes)
      → Contract Never
          (Talking disk sent log bytes)
          (check_verdict (framed t_ok verdict))
          (λ _. Talking disk sent log bytes)
          Never
  unfolding check_verdict
  check_verdict-Talking verdict =
      Contract-then (free-Talking (block verdict)) (record { runs = λ w t. t })

  pub send_put-Talking :
      (c name : Bytes)
      → length name ≤ max_name
      → Contract Never
          (Talking disk sent log bytes)
          (send_put (length c) (sha256 c) name)
          (λ _.
            Talking disk (sent ++ frame_bytes t_put (request (length c) (sha256 c) name)) log bytes)
          Never
  send_put-Talking c name short = record {
    runs = λ w t.
        rw (send_put-eq (length c) (sha256 c) name w (length-sha256 c) short)
          ((write_frame-Talking t_put (request (length c) (sha256 c) name)).runs w t);
  }
