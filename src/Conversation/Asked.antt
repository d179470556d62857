-- ===== src/Conversation/Asked.antt =====
-- `rtrv_do_get` from the search to the metadata, against a server that keeps the protocol.
use retriever.Base.{ℕ, ◌+◌, ◌^◌, ◌≤◌, ◌<◌, ◌≡◌, refl, ap, sym, subst, ◌∙◌, arith}
use retriever.Base.{List, ◌++◌, some, none, length, length-append, take}
use retriever.Base.{drop, take-append, drop-append, ltb}
use retriever.Os.World.{World, Bytes, Key, Node, Message}
use retriever.Os.Program.{M, ◌>>=◌}
use retriever.Os.Files.{lookup, resolve}
use retriever.Os.Triples.{Contract, Contract-then, Contract-known}
use retriever.Os.Triples.{Contract-if}
use retriever.Os.Calm.{Never, Contract-sure}
use retriever.Frame.{t_ok, t_get, read_frame_header}
use retriever.Frame.Encoding.{encode_header}
use retriever.Frame.Writing.{frame_bytes}
use retriever.Frame.Reading.{read_frame_header_ok, stream-past_header}
use retriever.Transfer.Path.{dir_max, max_name, path_max, split_path, partial_name}
use retriever.Transfer.Requests.{request, send_get-eq}
use retriever.Transfer.Get.{
  Resume, Meta, parse_meta, get_meta_size, send_get, download, request_get, do_get, resume_of,
}
use retriever.Transfer.Get.Replied.{check_get_reply_ok, partial_name_ok}
use retriever.Transfer.Get.Offering.{offer_of, offer_of-length, parse_meta-offer_of}
use retriever.Conversation.Frames.{Disk, Same, Talking, write_frame-Talking}
use retriever.Conversation.Search.{partial_of}
use retriever.Conversation.Local.{file_exists-Talking}
use retriever.Conversation.Download.{read_exact-Talking}
use retriever.Transfer.Partial.{Found, find_partial}
use retriever.Os.Program.{attempt}
use retriever.Packing.Layout.{IsByte}
use retriever.Base.{All, Option}

-- The server's part: the metadata of the whole, and then the bytes `ahead`.
abbrev pub offers : ℕ → ℕ → ℕ → Bytes → Bytes → Bytes
offers n total start digest ahead = encode_header t_ok n ++ (offer_of total start digest ++ ahead)

module _ {disk : Disk} {sent : Bytes} {log : List Message} where
  pub read_frame_header-Talking :
      (type n : ℕ) (rest : Bytes)
      → type < 256
      → n < 2 ^ 64
      → Contract Never
          (Talking disk sent log (encode_header type n ++ rest))
          read_frame_header
          (λ h w. (h ≡ record { type = type; payload_len = n }) × Talking disk sent log rest w)
          Never
  read_frame_header-Talking type n rest byte fits = record {
    runs = λ w t. rw (read_frame_header_ok type n rest w byte fits t.comes) (
      refl,
      record {
        stored = t.stored;
        said = t.said;
        shown = t.shown;
        clear = t.clear;
        sound = t.sound;
        comes = stream-past_header type n rest w byte fits t.comes;
      },
    );
  }

  partial_name-Talking :
      (dest digest dir base bytes : Bytes)
      → split_path dest dir_max (max_name + 1) ≡ some (dir, base)
      → Contract Never
          (Talking disk sent log bytes)
          (partial_name dest digest path_max)
          (λ p w. (p ≡ partial_of dest dir base digest) × Talking disk sent log bytes w)
          Never
  partial_name-Talking dest digest dir base bytes parts = record {
    runs = λ w t. rw (partial_name_ok dest digest dir base w parts) (refl, t);
  }

  pub send_get-Talking :
      (resume : Resume) (name bytes : Bytes)
      → length resume.token ≡ 8
      → length name ≤ max_name
      → Contract Never
          (Talking disk sent log bytes)
          (send_get resume name)
          (λ _.
            Talking disk
              (sent ++ frame_bytes t_get (request resume.offset resume.token name))
              log
              bytes)
          Never
  send_get-Talking resume name bytes token short = record {
    runs = λ w t.
        rw (send_get-eq resume name w token short)
          ((write_frame-Talking t_get (request resume.offset resume.token name)).runs w t);
  }

-- What the search gives, the request that is made of it, and the metadata that the server sends.
module _ (files : List (Key × Node)) (sent : Bytes) (log : List Message)
    (name dest dir base d ahead : Bytes) (n total start : ℕ) (o : Option (Option Found))
    (parts : split_path dest dir_max (max_name + 1) ≡ some (dir, base)) (digested : length d ≡ 32)
    (bytes : All IsByte d) (missing : lookup (resolve dest) files ≡ none)
    (short : length name ≤ max_name) (fits : n < 2 ^ 64) (small : total < 2 ^ 64)
    (within : start < 2 ^ 64) (token : length (resume_of o).token ≡ 8) where
  abbrev announced : Meta
  announced = record { total_size = total; start = start; digest = d }

  abbrev resume : Resume
  resume = resume_of o

  abbrev asked : Bytes
  asked = sent ++ frame_bytes t_get (request resume.offset resume.token name)

  -- What is left is what the download leaves.
  module _ {Q E : World → Type 0}
      (downloads : Contract Never
        (Talking (Same files) asked log ahead)
        (download name dest resume announced (partial_of dest dir base d))
        (λ _. Q)
        E) where
    -- From the metadata on.
    abbrev saving : Meta → M (Unit {0})
    saving m = partial_name dest m.digest path_max >>= λ p. download name dest resume m p

    request_get-found :
        Contract Never
          (Talking (Same files) sent log (offers n total start d ahead))
          (request_get name dest resume)
          (λ _. Q)
          E
    unfolding request_get
    request_get-found =
        let meta : Bytes = offer_of total start d in
        let long : length meta ≡ get_meta_size = offer_of-length total start d digested in
        let reply : Bytes = meta ++ ahead in
        let parsed : parse_meta (take get_meta_size reply) ≡ announced =
          ap (λ (b : Bytes). parse_meta b) (take-append get_meta_size meta ahead long)
          ∙ parse_meta-offer_of total start d digested bytes small within in
        let named : Contract Never (Talking (Same files) asked log ahead) (saving announced)
            (λ _. Q) E =
          Contract-known _ (Contract-sure (partial_name-Talking dest d dir base ahead parts))
            downloads in
        Contract-then
          (Contract-sure (send_get-Talking resume name (encode_header t_ok n ++ reply) token short))
          (Contract-known _
            (Contract-sure (read_frame_header-Talking t_ok n reply (omega arith) fits))
            (Contract-then (record { runs = λ w t. rw (check_get_reply_ok n w) t })
              (Contract-known _
                (Contract-sure (
                  read_exact-Talking get_meta_size (omega (arith, long, length-append meta ahead))))
                (subst
                  (λ (m : Meta).
                    Contract Never (Talking (Same files) asked log (drop get_meta_size reply))
                      (saving m) (λ _. Q) E)
                  (sym parsed)
                  (subst
                    (λ (b : Bytes).
                      Contract Never (Talking (Same files) asked log b) (saving announced) (λ _. Q)
                        E)
                    (sym (drop-append get_meta_size meta ahead long)) named)))))

    pub do_get-found :
        Contract Never
          (Talking (Same files) sent log (offers n total start d ahead))
          (attempt (find_partial dest path_max))
          (λ x w. (x ≡ o) × Talking (Same files) sent log (offers n total start d ahead) w)
          Never
        → Contract Never
            (Talking (Same files) sent log (offers n total start d ahead))
            (do_get name dest)
            (λ _. Q)
            E
    unfolding do_get
    do_get-found finds =
        Contract-known _
          (Contract-sure (
            file_exists-Talking dest (λ fs same.
              ap (λ (gs : List (Key × Node)). lookup (resolve dest) gs) same ∙ missing)))
          (Contract-known _ (Contract-sure finds) (
            Contract-if (ltb max_name (length name)) (λ long. absurd (ground (arith, long, short)))
              (λ _. request_get-found)))
