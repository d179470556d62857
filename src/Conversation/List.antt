-- ===== src/Conversation/List.antt =====
-- `do_list` against a server that keeps the protocol.
use retriever.Base.{◌≤◌, ap, arith, List, [], ◌∷◌, ◌++◌, length, map}
use retriever.Os.World.{World, Bytes, Message, listed}
use retriever.Os.Triples.{Contract, Contract-then, Contract-known}
use retriever.Os.Calm.{Never}
use retriever.Frame.{payload_cap, t_ok, t_list}
use retriever.Frame.Writing.{frame_bytes}
use retriever.Session.{show_list, do_list}
use retriever.Session.Listing.{names, after_list, show_list-names}
use retriever.Conversation.Frames.{Disk, Talking, write_frame-Talking, read_frame-Talking}

after_list-Talking :
    (payload : Bytes) {disk : Disk} {sent : Bytes} {log : List Message} {rest : Bytes} (w : World)
    → Talking disk sent log rest w
    → Talking disk sent (log ++ map listed (names payload)) rest (after_list payload w)
unfolding retriever.Session.Listing.names_from
after_list-Talking [] w t = record {
  stored = t.stored;
  said = t.said;
  shown = ap (λ (l : List Message). l ++ map listed (names [])) t.shown;
  clear = t.clear;
  sound = t.sound;
  comes = t.comes;
}
after_list-Talking (b ∷ bs) w t = record {
  stored = t.stored;
  said = t.said;
  shown = ap (λ (l : List Message). l ++ map listed (names (b ∷ bs))) t.shown;
  clear = t.clear;
  sound = t.sound;
  comes = t.comes;
}

module _ {disk : Disk} {sent : Bytes} {log : List Message} (payload rest : Bytes)
    (fits : length payload ≤ payload_cap) where
  -- The names are printed.
  pub do_list-Talking :
      Contract Never
        (Talking disk sent log (frame_bytes t_ok payload ++ rest))
        do_list
        (λ _. Talking disk (sent ++ frame_bytes t_list []) (log ++ map listed (names payload)) rest)
        Never
  unfolding do_list
  do_list-Talking = Contract-then (write_frame-Talking t_list []) (
      Contract-known show_list (read_frame-Talking t_ok payload rest (omega arith) fits)
        (record { runs = λ w t. rw (show_list-names payload w) (after_list-Talking payload w t) }))
