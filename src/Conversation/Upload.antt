-- ===== src/Conversation/Upload.antt =====
-- What PUT sends of the local file, without faults.
use retriever.Base.{ℕ, zero, suc, ◌-◌, ◌≤◌, ◌≡◌, refl, ap, sym, subst, arith, true, false}
use retriever.Base.{not, List, ◌++◌, append-nil, length, length-take, length-drop, take}
use retriever.Base.{drop, take_all, ltb, ◌==◌}
use retriever.Os.World.{Bytes, Message, cannot_open, cannot_seek}
use retriever.Os.Program.{◌>>◌, say}
use retriever.Os.Files.{Stream, release}
use retriever.Os.Triples.{Settles, Contract, Contract-then, Contract-known}
use retriever.Os.Triples.{Contract-on_error, Contract-if}
use retriever.Os.Calm.{needless, Never, lasts-IsSound, spend-IsSound}
use retriever.Socket.{write_all}
use retriever.Socket.Write.{write_all_ok}
use retriever.Transfer.Put.{upload_piece, piece_size, upload_loop, upload}
use retriever.Transfer.Get.Appending.{take-pieces, piece_size-le, piece_size-positive}
use retriever.Conversation.Frames.{Disk, Talking}
use retriever.Conversation.Local.{
  Stores, release-Talking, fread-Talking, seek-Talking, open_read-Talking,
}

module _ {disk : Disk} {log : List Message} {bytes : Bytes} where
  write_all-Talking :
      (sent p : Bytes)
      → Contract Never
          (Talking disk sent log bytes)
          (write_all p)
          (λ _. Talking disk (sent ++ p) log bytes)
          Never
  write_all-Talking sent p = record {
    runs = λ w t.
        rw (write_all_ok p (length p) w refl (lasts-IsSound (length p) w.rooms t.sound)) (record {
          stored = t.stored;
          said = ap (λ (b : Bytes). b ++ p) t.said;
          shown = t.shown;
          clear = t.clear;
          sound = spend-IsSound (length p) w.rooms t.sound;
          comes = t.comes;
        });
  }

  -- The bytes that are read are sent, and the stream is past them.
  upload_piece-Talking :
      (path sent : Bytes) (n : ℕ) (f : Stream)
      → n ≤ length f.rest
      → Contract Never
          (Talking disk sent log bytes)
          (upload_piece path n f)
          (λ f' w.
            (f' ≡ record f { rest = drop n f.rest })
            × Talking disk (sent ++ take n f.rest) log bytes w)
          Never
  unfolding upload_piece
  upload_piece-Talking path sent n f enough = Contract-known _ (fread-Talking n f) (
      Contract-if (not (length (take n f.rest) == n))
        (λ short. absurd (ground (arith, short, enough, length-take n f.rest)))
        (λ _.
          Contract-then
            (Contract-on_error (write_all-Talking sent (take n f.rest)) (needless release))
            (record { runs = λ w t. (refl, t) })))

module _ (disk : Disk) (log : List Message) (bytes path : Bytes) where
  upload_loop-Talking :
      (fuel n : ℕ) (sent : Bytes) (f : Stream)
      → n ≤ fuel
      → n ≤ length f.rest
      → Contract Never
          (Talking disk sent log bytes)
          (upload_loop fuel n path f)
          (λ _. Talking disk (sent ++ take n f.rest) log bytes)
          Never
  unfolding upload_loop
  upload_loop-Talking zero zero sent f h enough = record { runs = λ w t. rw append-nil t }
  upload_loop-Talking zero (suc r) sent f h enough = absurd (omega arith)
  upload_loop-Talking (suc fuel) zero sent f h enough = record { runs = λ w t. rw append-nil t }
  upload_loop-Talking (suc fuel) (suc r) sent f h enough =
      let n : ℕ = suc r in
      let want : ℕ = piece_size n in
      let part : want ≤ n = piece_size-le n in
      let more : ltb 0 n ≡ true = ground arith in
      let left : Stream = record f { rest = drop want f.rest } in
      let next : Bytes = sent ++ take want f.rest in
      let rest : Contract Never (Talking disk next log bytes)
          (upload_loop fuel (n - want) path left)
          (λ _. Talking disk (sent ++ take n f.rest) log bytes) Never =
        subst
          (λ (b : Bytes).
            Contract Never (Talking disk next log bytes) (upload_loop fuel (n - want) path left)
              (λ _. Talking disk b log bytes) Never)
          (take-pieces want n sent f.rest part)
          (upload_loop-Talking fuel (n - want) next left
            (omega (arith, h, part, piece_size-positive n (omega arith)))
            (omega (arith, enough, part, length-drop want f.rest))) in
      record {
        runs = λ w t.
            rw (more, Settles)
              ((Contract-known (λ s. upload_loop fuel (n - want) path s)
                  (upload_piece-Talking path sent want f (omega (arith, enough, part))) rest).runs
                w t);
      }

  -- All of the file from the offset on.
  pub upload-Talking :
      (sent c : Bytes) (offset : ℕ)
      → Stores disk path c
      → Contract Never
          (Talking disk sent log bytes)
          (upload path (length c) offset)
          (λ _. Talking disk (sent ++ drop offset c) log bytes)
          Never
  unfolding upload
  upload-Talking sent c offset held =
      let n : ℕ = length c - offset in
      Contract-known _
        (Contract-on_error (open_read-Talking path c held) (needless (say (cannot_open path))))
        (Contract-known _
          (Contract-on_error (seek-Talking offset (record { rest = c; failed = false }))
            (needless (release >> say (cannot_seek path))))
          (Contract-then
            (upload_loop-Talking n n sent (record { rest = drop offset c; failed = false })
              (omega arith) (omega (arith, length-drop offset c)))
            (subst
              (λ (b : Bytes).
                Contract Never (Talking disk (sent ++ b) log bytes) release
                  (λ _. Talking disk (sent ++ drop offset c) log bytes) Never)
              (sym (take_all n (drop offset c) (omega (arith, length-drop offset c))))
              release-Talking)))
