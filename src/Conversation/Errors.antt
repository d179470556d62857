-- ===== src/Conversation/Errors.antt =====
-- What the client makes of an ERROR frame.
use retriever.Base.{ℕ, ◌+◌, ◌^◌, ◌<◌, ◌≡◌, refl, ap, ◌∙◌, arith, ltb, List, [], ◌∷◌}
use retriever.Base.{◌++◌, some, length, length-append, take, take-append, drop, drop-append}
use retriever.Base.{All, All-append}
use retriever.Packing.{get_u16}
use retriever.Packing.Layout.{big_endian, length-big_endian, big_endian-All, get_u16-eq, IsByte}
use retriever.Packing.Layout.{from_big_endian, from_big_endian-big_endian}
use retriever.Os.World.{Bytes, Message, server_error}
use retriever.Os.Program.{fail, ◌>>◌, say}
use retriever.Os.Heap.{free}
use retriever.Os.Triples.{Contract, Contract-then, Contract-if, Contract-fail}
use retriever.Os.Calm.{Never, Contract-sure, needless, drawn-none}
use retriever.Base.{Bool}
use retriever.Os.World.{out_of_memory}
use retriever.Os.Program.{draw}
use retriever.Os.Heap.{malloc}
use retriever.Os.Triples.{Contract-on_error, Contract-known}
use retriever.Transfer.Get.{read_error}
use retriever.Os.Calm.{attempt-known}
use retriever.Conversation.Download.{read_exact-Talking}
use retriever.Frame.{report_error, printed, t_error}
use retriever.Session.{show_list}
use retriever.Transfer.Put.{read_offset, check_verdict}
use retriever.Conversation.Frames.{Disk, Talking, framed, free-Talking, say-Talking}

-- The payload of an ERROR frame: a code, and a message with its length before it.
abbrev pub error_bytes : ℕ → Bytes → Bytes
error_bytes code message = code ∷ (big_endian 2 (length message) ++ message)

-- What is printed of it.
abbrev pub complaint : ℕ → Bytes → Message
complaint code message = server_error (printed (length message) message) code

pub length-error_bytes :
    (code : ℕ) (message : Bytes) → length (error_bytes code message) ≡ 3 + length message
length-error_bytes code message = omega (
  arith,
  length-append (big_endian 2 (length message)) message,
  length-big_endian 2 (length message),
)

-- An error that a frame can carry.
pub record IsError (code : ℕ) (message : Bytes) : Type 0 where
  pub byte : code < 256
  pub text : All IsByte message
  pub short : length message < 2 ^ 16

module _ (code : ℕ) (message : Bytes) (e : IsError code message) where
  counted : get_u16 (error_bytes code message) 1 ≡ length message
  counted =
      let n : ℕ = length message in
      let all : All IsByte (error_bytes code message) =
        (e.byte, All-append IsByte (big_endian 2 n) message (big_endian-All 2 n) e.text) in
      get_u16-eq (error_bytes code message) 1 all (omega (arith, length-error_bytes code message))
      ∙ ap (λ (b : Bytes). from_big_endian 0 b)
          (take-append 2 (big_endian 2 n) message (length-big_endian 2 n))
      ∙ from_big_endian-big_endian 2 n e.short

  behind : drop 3 (error_bytes code message) ≡ message
  behind =
      drop-append 2 (big_endian 2 (length message)) message (length-big_endian 2 (length message))

  module _ {disk : Disk} {sent : Bytes} {log : List Message} {bytes : Bytes} where
    -- The message is printed.
    pub report_error-Talking :
        (n : ℕ)
        → n ≡ length (error_bytes code message)
        → Contract Never
            (Talking disk sent log bytes)
            (report_error (some (error_bytes code message)) n)
            (λ _. Talking disk sent (log ++ (complaint code message ∷ [])) bytes)
            Never
    unfolding report_error
    report_error-Talking n size =
        Contract-if (ltb n 3)
          (λ small. absurd (ground (arith, small, size, length-error_bytes code message)))
          (λ _.
            Contract-if (ltb n (get_u16 (error_bytes code message) 1 + 3))
              (λ small.
                absurd (ground (arith, small, counted, size, length-error_bytes code message)))
              (λ _. rw (counted, behind) (say-Talking (complaint code message))))

    -- The payload is freed, and the call fails.
    complained :
        {A : Type 0} (p : Bytes)
        → Contract Never
            (Talking disk sent log bytes)
            (report_error (some (error_bytes code message)) (length (error_bytes code message))
              >> (free (some p) >> fail))
            (λ (_ : A). Never)
            (Talking disk sent (log ++ (complaint code message ∷ [])) bytes)
    complained p =
        Contract-then
          (Contract-sure (report_error-Talking (length (error_bytes code message)) refl))
          (Contract-then (Contract-sure (free-Talking (some p))) Contract-fail)

    pub show_list-refused :
        Contract Never
          (Talking disk sent log bytes)
          (show_list (framed t_error (error_bytes code message)))
          (λ _. Never)
          (Talking disk sent (log ++ (complaint code message ∷ [])) bytes)
    unfolding show_list
    show_list-refused = complained (error_bytes code message)

    pub read_offset-refused :
        Contract Never
          (Talking disk sent log bytes)
          (read_offset (framed t_error (error_bytes code message)))
          (λ _. Never)
          (Talking disk sent (log ++ (complaint code message ∷ [])) bytes)
    unfolding read_offset
    read_offset-refused = complained (error_bytes code message)

    pub check_verdict-refused :
        Contract Never
          (Talking disk sent log bytes)
          (check_verdict (framed t_error (error_bytes code message)))
          (λ _. Never)
          (Talking disk sent (log ++ (complaint code message ∷ [])) bytes)
    unfolding check_verdict
    check_verdict-refused = complained (error_bytes code message)

    malloc-Talking :
        Contract Never (Talking disk sent log bytes) malloc (λ _. Talking disk sent log bytes) Never
    unfolding malloc
    malloc-Talking = record {
      runs = λ w t. rw (ap (λ (fs : List Bool). draw fs) t.clear) (record {
        stored = t.stored;
        said = t.said;
        shown = t.shown;
        clear = drawn-none t.clear;
        sound = t.sound;
        comes = t.comes;
      });
    }

  -- The reply to GET is read in two parts.
  pub read_error-refused :
      {disk : Disk} {sent : Bytes} {log : List Message} (rest : Bytes)
      → Contract Never
          (Talking disk sent log (error_bytes code message ++ rest))
          (read_error (length (error_bytes code message)))
          (λ _. Never)
          (Talking disk sent (log ++ (complaint code message ∷ [])) rest)
  unfolding read_error
  read_error-refused {disk} {sent} {log} rest =
      let p : Bytes = error_bytes code message in
      Contract-then
        (Contract-sure (Contract-on_error malloc-Talking (needless (say out_of_memory))))
        (Contract-known _
          (Contract-sure
            (attempt-known (read_exact-Talking (length p) (omega (arith, length-append p rest)))))
          (Contract-then (Contract-sure reported)
            (Contract-then (Contract-sure (free-Talking (some []))) Contract-fail)))
    where
      reported :
          Contract Never
            (Talking disk sent log
              (drop (length (error_bytes code message)) (error_bytes code message ++ rest)))
            (report_error
              (some (take (length (error_bytes code message)) (error_bytes code message ++ rest)))
              (length (error_bytes code message)))
            (λ _. Talking disk sent (log ++ (complaint code message ∷ [])) rest)
            Never
      reported =
          let p : Bytes = error_bytes code message in
          rw (take-append (length p) p rest refl, drop-append (length p) p rest refl)
            (report_error-Talking (length p) refl)
