-- ===== src/Transfer/Put/Upload.antt =====
-- What `rtrv_do_put` has sent where it returns 0.
use retriever.Base.{ℕ, zero, suc, ◌-◌, ◌≤◌, ◌<◌, ◌≡◌, ◌∙◌, ap, subst, sym, arith, true}
use retriever.Base.{not, ◌++◌, append-nil, List}
use retriever.Base.{some, length, take, drop, ltb, ◌==◌, ◌||◌, length-drop, take_all}
use retriever.Os.World.{World, Bytes, Key, Node, regular, cannot_seek}
use retriever.Os.Program.{◌>>◌, ◌on_error◌, say}
use retriever.Socket.{write_all}
use retriever.Os.Heap.{free}
use retriever.Os.Files.{Stream, lookup, resolve, release}
use retriever.Os.Triples.{Settles}
use retriever.Os.Triples.{Triple, Anything, Contract-Anything, Contract-bind, Contract-then}
use retriever.Os.Triples.{
  Contract-pure, Contract-refuse, Contract-if, Contract-on_error, Contract-said,
}
use retriever.Os.Triples.{Contract-fail, Contract-given}
use retriever.Frame.{Frame, t_ok, t_error, report_error}
use retriever.Transfer.Put.{
  upload_piece, piece_size, upload_loop, upload, read_offset, check_offset,
}
use retriever.Transfer.Put.{check_verdict}
use retriever.Transfer.Get.Appending.{take-pieces, piece_size-le, piece_size-positive}
use retriever.Transfer.Put.Sending.{At, write_all-At, free-At}
use retriever.Transfer.Put.Reading.{release-At, open_read-Rest}
use retriever.Transfer.Put.Reading.{seek-Rest, fread-Piece}

module _ (files : List (Key × Node)) (path : Bytes) where
  -- What is left of the file, with its next bytes sent.
  abbrev Sent : Bytes → Bytes → ℕ → Stream → World → Type 0
  Sent sent rest n f w = (f.rest ≡ drop n rest) × At files (sent ++ take n rest) w

  upload_piece-Sent :
      (sent : Bytes) (n : ℕ) (f : Stream)
      → 0 < n
      → Triple (At files sent) (upload_piece path n f) (Sent sent f.rest n) Anything
  unfolding upload_piece
  upload_piece-Sent sent n f positive = Contract-bind (fread-Piece files sent n f positive) (λ r.
      Contract-given (λ piece.
        Contract-if (not (length r.0 == n))
          (λ _. Contract-then (Contract-Anything release) Contract-refuse)
          (λ full.
            let (bytes, left) = piece (ground arith) in
            Contract-then
              (subst
                (λ (b : Bytes).
                  Triple (At files sent) (write_all r.0 on_error release)
                    (λ _. At files (sent ++ b)) Anything)
                bytes (Contract-on_error (write_all-At sent r.0) (Contract-Anything release)))
              (record { runs = λ w u. (left, u) }))))

  upload_loop-Sent :
      (fuel n : ℕ) (sent rest : Bytes) (f : Stream)
      → n ≤ fuel
      → f.rest ≡ rest
      → Triple
          (At files sent)
          (upload_loop fuel n path f)
          (λ _. At files (sent ++ take n rest))
          Anything
  unfolding upload_loop
  upload_loop-Sent zero zero sent rest f h e = record { runs = λ w u. rw append-nil u }
  upload_loop-Sent zero (suc r) sent rest f h e = absurd (omega arith)
  upload_loop-Sent (suc fuel) zero sent rest f h e = record { runs = λ w u. rw append-nil u }
  upload_loop-Sent (suc fuel) (suc r) sent rest f h e =
      let n : ℕ = suc r in
      let want : ℕ = piece_size n in
      let more : ltb 0 n ≡ true = ground arith in
      let next : Bytes = sent ++ take want f.rest in
      record {
        runs = λ w u.
            rw (more, Settles)
              ((Contract-bind (upload_piece-Sent sent want f (piece_size-positive n (omega arith)))
                  (λ f'. Contract-given (λ left.
                    subst
                      (λ (b : Bytes).
                        Triple (At files next) (upload_loop fuel (n - want) path f')
                          (λ _. At files b) Anything)
                      (take-pieces want n sent f.rest (piece_size-le n)
                        ∙ ap (λ (b : Bytes). sent ++ take n b) e)
                      (upload_loop-Sent fuel (n - want) next (drop want f.rest) f'
                        (omega (arith, h, piece_size-le n, piece_size-positive n (omega arith)))
                        left)))).runs
                w u);
      }

  -- All of the file from the offset on.
  pub upload-Sent :
      (sent c : Bytes) (offset : ℕ)
      → lookup (resolve path) files ≡ some (regular c)
      → Triple
          (At files sent)
          (upload path (length c) offset)
          (λ _. At files (sent ++ drop offset c))
          Anything
  unfolding upload
  upload-Sent sent c offset held =
      Contract-bind (Contract-on_error (open_read-Rest files sent path c held) Contract-said) (λ f.
        Contract-given (λ whole.
          Contract-bind
            (Contract-on_error (seek-Rest files sent offset f)
              (Contract-Anything (release >> say (cannot_seek path))))
            (λ f'. Contract-given (λ left.
              Contract-then
                (upload_loop-Sent (length c - offset) (length c - offset) sent (drop offset c) f'
                  (omega arith) (left ∙ ap (λ (b : Bytes). drop offset b) whole))
                (subst
                  (λ (b : Bytes).
                    Triple (At files (sent ++ b)) release (λ _. At files (sent ++ drop offset c))
                      Anything)
                  (sym (
                    take_all (length c - offset) (drop offset c)
                      (omega (arith, length-drop offset c))))
                  release-At)))))

module _ {files : List (Key × Node)} {sent : Bytes} where
  pub read_offset-At :
      (f : Frame) → Triple (At files sent) (read_offset f) (λ _. At files sent) Anything
  unfolding read_offset
  read_offset-At f =
      Contract-if (f.type == t_error)
        (λ _.
          Contract-then (Contract-Anything (report_error f.payload f.payload_len))
            (Contract-then (Contract-Anything (free f.payload)) Contract-fail))
        (λ _.
          Contract-if (not (f.type == t_ok) || ltb f.payload_len 8)
            (λ _.
              Contract-then Contract-said
                (Contract-then (Contract-Anything (free f.payload)) Contract-fail))
            (λ _. Contract-then (free-At f.payload) Contract-pure))

  pub check_offset-At :
      (size offset : ℕ)
      → Triple
          (At files sent)
          (check_offset size offset)
          (λ _ w. (offset ≤ size) × At files sent w)
          Anything
  unfolding check_offset
  check_offset-At size offset =
      Contract-if (ltb size offset) (λ _. Contract-refuse)
        (λ within.
          Contract-if (ltb 0 offset) (λ _. record { runs = λ w u. (ground arith, u) })
            (λ _. record { runs = λ w u. (ground arith, u) }))

  pub check_verdict-At :
      (f : Frame) → Triple (At files sent) (check_verdict f) (λ _. At files sent) Anything
  unfolding check_verdict
  check_verdict-At f =
      Contract-if (f.type == t_error)
        (λ _.
          Contract-then (Contract-Anything (report_error f.payload f.payload_len))
            (Contract-then (Contract-Anything (free f.payload)) Contract-fail))
        (λ _.
          Contract-then (free-At f.payload)
            (Contract-if (not (f.type == t_ok)) (λ _. Contract-refuse) (λ _. Contract-pure)))
