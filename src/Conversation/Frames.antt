-- ===== src/Conversation/Frames.antt =====
-- c/frame.c without faults, with all that is seen of it: frames out and frames in.
use retriever.Base.{ℕ, ◌+◌, ◌≤◌, ◌<◌, ◌≡◌, refl, ap, ◌∙◌, arith, Bool, true, List, [], ◌∷◌, ◌++◌}
use retriever.Base.{length, length-append, take, take_all, Option, none, some}
use retriever.Os.World.{World, Bytes, Key, Node, Message, Room}
use retriever.Os.Program.{ok, say}
use retriever.Os.Heap.{free}
use retriever.Os.Triples.{Contract}
use retriever.Os.Calm.{IsSound, Never, drawn-none, lasts-IsSound, spend-IsSound}
use retriever.Socket.Stream.{stream}
use retriever.Socket.Write.{spend, at, carried_all, outcome}
use retriever.Frame.{Frame, header_size, payload_cap, write_frame, read_frame}
use retriever.Frame.Encoding.{encode_header, length-encode_header}
use retriever.Frame.Writing.{
  frame_bytes, frame_lasts, frame_carried, frame_spend, write_frame-outcome,
}
use retriever.Frame.Reading.{block, after_frame, read_frame-frame_bytes}

-- What is said of the files.
abbrev pub Disk : Type 1
Disk = List (Key × Node) → Type 0

abbrev pub Same : List (Key × Node) → Disk
Same files fs = fs ≡ files

-- The files keep `disk`, nothing fails, and these are the bytes sent and the messages printed so far, and the
-- bytes still to come.
pub record Talking (disk : Disk) (sent : Bytes) (log : List Message) (bytes : Bytes) (w : World)
    : Type 0 where
  pub stored : disk w.files
  pub said : w.sent ≡ sent
  pub shown : w.log ≡ log
  pub clear : w.faults ≡ []
  pub sound : IsSound w.rooms
  pub comes : stream w.inbox ≡ bytes

pub frame_lasts-IsSound : (n : ℕ) (rooms : List Room) → IsSound rooms → frame_lasts n rooms ≡ true
frame_lasts-IsSound n rooms sound =
    rw (lasts-IsSound header_size rooms sound)
      (lasts-IsSound n (spend header_size rooms) (spend-IsSound header_size rooms sound))

frame_spend-IsSound : (n : ℕ) (rooms : List Room) → IsSound rooms → IsSound (frame_spend n rooms)
frame_spend-IsSound n rooms sound =
    rw (lasts-IsSound header_size rooms sound)
      (spend-IsSound n (spend header_size rooms) (spend-IsSound header_size rooms sound))

frame_carried-IsSound :
    (n : ℕ) (rooms : List Room) → IsSound rooms → frame_carried n rooms ≡ header_size + n
frame_carried-IsSound n rooms sound =
    let rest : List Room = spend header_size rooms in
    rw (lasts-IsSound header_size rooms sound) (
      ap (λ (k : ℕ). header_size + k)
        (carried_all n rest (lasts-IsSound n rest (spend-IsSound header_size rooms sound))))

-- All of a frame goes out.
write_frame_ok :
    (type : ℕ) (payload : Bytes) (w : World)
    → IsSound w.rooms
    → write_frame type payload w
      ≡ ok tt (at w (frame_spend (length payload) w.rooms) (w.sent ++ frame_bytes type payload))
write_frame_ok type payload w sound =
    let n : ℕ = length payload in
    let whole : take (frame_carried n w.rooms) (frame_bytes type payload)
        ≡ frame_bytes type payload =
      ap (λ (k : ℕ). take k (frame_bytes type payload)) (frame_carried-IsSound n w.rooms sound)
      ∙ take_all (header_size + n) (frame_bytes type payload) (
          omega
            (arith, length-append (encode_header type n) payload, length-encode_header type n)) in
    let v : World =
      at w (frame_spend n w.rooms)
        (w.sent ++ take (frame_carried n w.rooms) (frame_bytes type payload)) in
    write_frame-outcome type payload w
    ∙ ap (λ (b : Bool). outcome b v) (frame_lasts-IsSound n w.rooms sound)
    ∙ ap (λ (b : Bytes). ok tt (at w (frame_spend n w.rooms) (w.sent ++ b))) whole

module _ {disk : Disk} {sent : Bytes} {log : List Message} {bytes : Bytes} where
  pub write_frame-Talking :
      (type : ℕ) (payload : Bytes)
      → Contract Never
          (Talking disk sent log bytes)
          (write_frame type payload)
          (λ _. Talking disk (sent ++ frame_bytes type payload) log bytes)
          Never
  write_frame-Talking type payload = record {
    runs = λ w t. rw (write_frame_ok type payload w t.sound) (record {
      stored = t.stored;
      said = ap (λ (b : Bytes). b ++ frame_bytes type payload) t.said;
      shown = t.shown;
      clear = t.clear;
      sound = frame_spend-IsSound (length payload) w.rooms t.sound;
      comes = t.comes;
    });
  }

  pub free-Talking :
      (p : Option Bytes)
      → Contract Never
          (Talking disk sent log bytes)
          (free p)
          (λ _. Talking disk sent log bytes)
          Never
  unfolding free
  free-Talking none = record { runs = λ w t. t }
  free-Talking (some b) = record {
    runs = λ w t. record {
      stored = t.stored;
      said = t.said;
      shown = t.shown;
      clear = t.clear;
      sound = t.sound;
      comes = t.comes;
    };
  }

  pub say-Talking :
      (message : Message)
      → Contract Never
          (Talking disk sent log bytes)
          (say message)
          (λ _. Talking disk sent (log ++ (message ∷ [])) bytes)
          Never
  say-Talking message = record {
    runs = λ w t. record {
      stored = t.stored;
      said = t.said;
      shown = ap (λ (l : List Message). l ++ (message ∷ [])) t.shown;
      clear = t.clear;
      sound = t.sound;
      comes = t.comes;
    };
  }

after_frame-Talking :
    (payload rest : Bytes) {disk : Disk} {sent : Bytes} {log : List Message} {bytes : Bytes}
    (w : World)
    → Talking disk sent log bytes w
    → stream (after_frame payload w).inbox ≡ rest
    → Talking disk sent log rest (after_frame payload w)
after_frame-Talking [] rest w t left = record {
  stored = t.stored;
  said = t.said;
  shown = t.shown;
  clear = t.clear;
  sound = t.sound;
  comes = left;
}
after_frame-Talking (b ∷ bs) rest w t left = record {
  stored = t.stored;
  said = t.said;
  shown = t.shown;
  clear = drawn-none t.clear;
  sound = t.sound;
  comes = left;
}

-- A frame with this type and payload, as `read_frame` gives it.
abbrev pub framed : ℕ → Bytes → Frame
framed type payload = record { type = type; payload = block payload; payload_len = length payload }

module _ {disk : Disk} {sent : Bytes} {log : List Message} (type : ℕ) (payload rest : Bytes)
    (byte : type < 256) (fits : length payload ≤ payload_cap) where
  pub read_frame-Talking :
      Contract Never
        (Talking disk sent log (frame_bytes type payload ++ rest))
        read_frame
        (λ f w. (f ≡ framed type payload) × Talking disk sent log rest w)
        Never
  read_frame-Talking = record {
    runs = λ w t.
        let (read, left) =
          read_frame-frame_bytes type payload rest w byte fits (rw t.clear) t.comes in
        rw read (refl, after_frame-Talking payload rest w t left);
  }
