-- ===== src/Conversation/Download.antt =====
-- What GET does with the body that comes, without faults.
use retriever.Base.{ℕ, zero, suc, ◌-◌, ◌≤◌, ◌≡◌, ap, sym, subst, ◌∙◌, arith, Bool, true}
use retriever.Base.{List, ◌++◌, append-nil, some, length, length-drop, take, drop}
use retriever.Base.{drop-drop, ltb, none}
use retriever.Os.World.{World, Bytes, Key, Node, Message, regular, interrupted, cannot_write_to}
use retriever.Os.Program.{◌>>◌, say, draw, drawn}
use retriever.Os.Files.{lookup, resolve, open_write, fwrite, close_written, release}
use retriever.Os.Lookup.{lookup-insert}
use retriever.Os.Triples.{Settles, Contract, Contract-then, Contract-known, Contract-on_error}
use retriever.Os.Triples.{Contract-weaken}
use retriever.Os.Calm.{Never, needless, drawn-none}
use retriever.Socket.{read_exact}
use retriever.Socket.Stream.{stream, stream-advance}
use retriever.Socket.Read.{read_exact_full}
use retriever.Transfer.Get.{download_piece, piece_size, download_loop}
use retriever.Transfer.Get.Appending.{take-pieces, piece_size-le, piece_size-positive}
use retriever.Conversation.Frames.{Disk, Talking}
use retriever.Conversation.Local.{Stores, drawn-Talking}

-- A regular file at a path.
abbrev pub File : Bytes → Bytes → Disk
File path c fs = lookup (resolve path) fs ≡ some (regular c)

-- Nothing at a path.
abbrev pub Missing : Bytes → Disk
Missing path fs = lookup (resolve path) fs ≡ none

module _ {disk : Disk} {sent : Bytes} {log : List Message} {bytes : Bytes} where
  -- A call that changes the files.
  pub stores-Talking :
      {after : Disk} (files : List (Key × Node)) (n : ℕ) (w : World)
      → Talking disk sent log bytes w
      → after files
      → Talking after sent log bytes
          (record w { faults = drawn w.faults; files = files; handles = n })
  stores-Talking files n w t held = record {
    stored = held;
    said = t.said;
    shown = t.shown;
    clear = drawn-none t.clear;
    sound = t.sound;
    comes = t.comes;
  }

  pub read_exact-Talking :
      (n : ℕ)
      → n ≤ length bytes
      → Contract Never
          (Talking disk sent log bytes)
          (read_exact n)
          (λ got w. (got ≡ take n bytes) × Talking disk sent log (drop n bytes) w)
          Never
  read_exact-Talking n h = record {
    runs = λ w t.
        let enough : n ≤ length (stream w.inbox) =
          subst (λ (s : Bytes). n ≤ length s) (sym t.comes) h in
        rw (read_exact_full n w enough) (
          ap (λ (s : Bytes). take n s) t.comes,
          record {
            stored = t.stored;
            said = t.said;
            shown = t.shown;
            clear = t.clear;
            sound = t.sound;
            comes = stream-advance n w.inbox enough ∙ ap (λ (s : Bytes). drop n s) t.comes;
          },
        );
  }

  -- A file that is appended to is as it was.
  pub open_write-Talking :
      (path c : Bytes)
      → Stores disk path c
      → Contract Never
          (Talking disk sent log bytes)
          (open_write path true)
          (λ _. Talking (File path c) sent log bytes)
          Never
  unfolding open_write
  open_write-Talking path c held = record {
    runs = λ w t.
        rw (ap (λ (fs : List Bool). draw fs) t.clear, held w.files t.stored)
          (stores-Talking _ _ w t (lookup-insert _ _ _));
  }

module _ {sent : Bytes} {log : List Message} where
  fwrite-Talking :
      (path c more bytes : Bytes)
      → Contract Never
          (Talking (File path c) sent log bytes)
          (fwrite path more)
          (λ _. Talking (File path (c ++ more)) sent log bytes)
          Never
  unfolding fwrite
  fwrite-Talking path c more bytes = record {
    runs = λ w t.
        rw (ap (λ (fs : List Bool). draw fs) t.clear, t.stored)
          (stores-Talking _ _ w t (lookup-insert _ _ _));
  }

  download_piece-Talking :
      (path c bytes : Bytes) (want : ℕ)
      → want ≤ length bytes
      → Contract Never
          (Talking (File path c) sent log bytes)
          (download_piece path want)
          (λ _. Talking (File path (c ++ take want bytes)) sent log (drop want bytes))
          Never
  unfolding download_piece
  download_piece-Talking path c bytes want enough =
      Contract-known _
        (Contract-on_error (read_exact-Talking want enough) (needless (release >> say interrupted)))
        (Contract-on_error (fwrite-Talking path c (take want bytes) (drop want bytes))
          (needless (release >> say (cannot_write_to path))))

  -- The body is behind what the file held.
  pub download_loop-Talking :
      (fuel n : ℕ) (path c bytes : Bytes)
      → n ≤ fuel
      → n ≤ length bytes
      → Contract Never
          (Talking (File path c) sent log bytes)
          (download_loop fuel n path)
          (λ _. Talking (File path (c ++ take n bytes)) sent log (drop n bytes))
          Never
  unfolding download_loop
  download_loop-Talking zero zero path c bytes h enough = record { runs = λ w t. rw append-nil t }
  download_loop-Talking zero (suc r) path c bytes h enough = absurd (omega arith)
  download_loop-Talking (suc fuel) zero path c bytes h enough = record {
    runs = λ w t. rw append-nil t;
  }
  download_loop-Talking (suc fuel) (suc r) path c bytes h enough =
      let n : ℕ = suc r in
      let want : ℕ = piece_size n in
      let part : want ≤ n = piece_size-le n in
      let more : ltb 0 n ≡ true = ground arith in
      let appended : Bytes = (c ++ take want bytes) ++ take (n - want) (drop want bytes) in
      let rest : Contract Never
          (Talking (File path (c ++ take want bytes)) sent log (drop want bytes))
          (download_loop fuel (n - want) path)
          (λ _. Talking (File path (c ++ take n bytes)) sent log (drop n bytes)) Never =
        Contract-weaken
          (download_loop-Talking fuel (n - want) path (c ++ take want bytes) (drop want bytes)
            (omega (arith, h, part, piece_size-positive n (omega arith)))
            (omega (arith, enough, part, length-drop want bytes)))
          (λ _ w t.
            subst (λ (b : Bytes). Talking (File path b) sent log (drop n bytes) w)
              (take-pieces want n c bytes part)
              (subst (λ (b : Bytes). Talking (File path appended) sent log b w)
                (drop-drop want (n - want) n bytes (omega (arith, part))) t)) in
      record {
        runs = λ w t.
            rw (more, Settles)
              ((Contract-then
                  (download_piece-Talking path c bytes want (omega (arith, enough, part)))
                  rest).runs
                w t);
      }

module _ {sent : Bytes} {log : List Message} {bytes : Bytes} where
  pub close_written-Talking :
      {disk : Disk}
      → Contract Never
          (Talking disk sent log bytes)
          close_written
          (λ _. Talking disk sent log bytes)
          Never
  unfolding close_written
  close_written-Talking = record {
    runs = λ w t. rw (ap (λ (fs : List Bool). draw fs) t.clear) (drawn-Talking _ w t);
  }
