-- ===== src/Transfer/Get/Success.antt =====
-- `rtrv_do_get` succeeds against a server that keeps the protocol.
use retriever.Base.{ℕ, ◌+◌, ◌^◌, ◌≤◌, ◌<◌, ◌≡◌, refl, ◌∙◌, sym, subst, arith, Bool, false}
use retriever.Base.{List, [], ◌++◌, none, some, length, take, drop, ltb}
use retriever.Os.World.{Bytes, Key, Node, cannot_write, cannot_flush, cannot_verify}
use retriever.Os.Program.{◌>>=◌, say}
use retriever.Os.Files.{lookup, resolve, open_write}
use retriever.Transfer.Get.Appending.{Holds}
use retriever.Os.Triples.{Contract, Anything, Contract-bind, Contract-then, Contract-given}
use retriever.Os.Triples.{Contract-on_error, Contract-if, Contract-said}
use retriever.Os.Calm.{needless, Never}
use retriever.Sha256.Padding.{sha256}
use retriever.Sha256.Hex.{sha256_hex}
use retriever.Frame.{Header, t_ok}
use retriever.Frame.Encoding.{encode_header}
use retriever.Transfer.Path.{dir_max, max_name, path_max, token_size, split_path, has_slash}
use retriever.Transfer.Path.{format_partial, partial_name}
use retriever.Transfer.Get.{Resume, Meta, parse_meta, body_size, get_meta_size, resume_of}
use retriever.Transfer.Get.{
  check_get_reply, settle_partial, send_get, download, request_get, do_get,
}
use retriever.Transfer.Get.Replied.{Coming, Waiting, read_exact-Waiting, write_frame-Waiting}
use retriever.Transfer.Get.Replied.{file_exists-Waiting, find_partial-Waiting}
use retriever.Transfer.Get.Replied.{read_frame_header-Waiting, check_get_reply_ok, partial_name_ok}
use retriever.Transfer.Get.Completing.{IsPlain, Plain, forget-Plain, open_write-Coming}
use retriever.Transfer.Get.Completing.{download_loop-Body, close_written-Finished}
use retriever.Transfer.Get.Completing.{sha256_file-Finished, publish-Finished}

-- A body that is all there and has the announced hash.
pub record IsWhole (m : Meta) (body : Bytes) : Type 0 where
  pub fresh : m.start ≡ 0
  pub enough : body_size m ≤ length body
  pub hashed : m.digest ≡ sha256 (take (body_size m) body)

module _ (name dest : Bytes) (resume : Resume) (m : Meta) (partial body : Bytes)
    (whole : IsWhole m body) where
  settle_partial-Plain :
      Contract Never
        (λ w. Plain (resolve partial) w × Coming body w)
        (settle_partial name resume m.start)
        (λ _ w. Plain (resolve partial) w × Coming body w)
        Never
  unfolding settle_partial
  settle_partial-Plain =
      Contract-if (ltb 0 m.start) (λ late. absurd (ground (arith, late, whole.fresh)))
        (λ _. forget-Plain (resolve partial) resume.existing)

  download-returns :
      Contract Never
        (λ w. Plain (resolve partial) w × Coming body w)
        (download name dest resume m partial)
        (λ _. Anything)
        Never
  unfolding download
  download-returns =
      let n : ℕ = body_size m in
      let c : Bytes = take n body in
      let anew : ltb 0 m.start ≡ false = ground (arith, whole.fresh) in
      Contract-then settle_partial-Plain (
        Contract-then (Contract-on_error opened (needless (say (cannot_write partial)))) (
          Contract-then (download_loop-Body n partial body whole.enough) (
            Contract-then
              (Contract-on_error (close_written-Finished partial c)
                (needless (say (cannot_flush partial))))
              (Contract-bind
                (Contract-on_error (sha256_file-Finished partial c)
                  (needless (say (cannot_verify partial))))
                (λ actual. Contract-given (λ e.
                  Contract-then
                    (publish-Finished partial c dest actual m.digest (e ∙ sym whole.hashed))
                    Contract-said))))))
    where
      opened :
          Contract Never
            (λ w. Plain (resolve partial) w × Coming body w)
            (open_write partial (ltb 0 m.start))
            (λ _ w. Holds (resolve partial) [] w × Coming body w)
            Never
      opened =
          let anew : ltb 0 m.start ≡ false = ground (arith, whole.fresh) in
          subst
            (λ (b : Bool).
              Contract Never (λ w. Plain (resolve partial) w × Coming body w) (open_write partial b)
                (λ _ w. Holds (resolve partial) [] w × Coming body w) Never)
            (sym anew) (open_write-Coming partial body)

-- A destination, the files at the beginning, and the reply behind its header.
module _ (name dest dir base : Bytes) (files : List (Key × Node)) (n : ℕ) (reply : Bytes) where
  abbrev announced : Meta
  announced = parse_meta (take get_meta_size reply)

  abbrev body : Bytes
  body = drop get_meta_size reply

  abbrev pub partial_path : Bytes
  partial_path = format_partial (has_slash dest) dir base (sha256_hex announced.digest token_size)

  -- What the server and the files must be for the transfer to succeed.
  pub record CanServe : Type 0 where
    pub fits : n < 2 ^ 64
    pub long : get_meta_size ≤ length reply
    pub whole : IsWhole announced body
    pub splits : split_path dest dir_max (max_name + 1) ≡ some (dir, base)
    pub plain : IsPlain (lookup (resolve partial_path) files)

  module _ (can : CanServe) where
    partial_name-Plain :
        Contract Never
          (Waiting files body)
          (partial_name dest announced.digest path_max)
          (λ p w. (p ≡ partial_path) × (Plain (resolve partial_path) w × Coming body w))
          Never
    partial_name-Plain = record {
      runs = λ w (same, coming). rw (partial_name_ok dest announced.digest dir base w can.splits) (
        refl,
        (
          subst (λ (fs : List (Key × Node)). IsPlain (lookup (resolve partial_path) fs)) (sym same)
              can.plain,
          coming,
        ),
      );
    }

    named-returns :
        (resume : Resume)
        → Contract Never
            (Waiting files body)
            (partial_name dest announced.digest path_max >>= λ p.
              download name dest resume announced p)
            (λ _. Anything)
            Never
    named-returns resume = Contract-bind partial_name-Plain (λ p. Contract-given (λ e.
        subst
          (λ (q : Bytes).
            Contract Never (λ w. Plain (resolve partial_path) w × Coming body w)
              (download name dest resume announced q) (λ _. Anything) Never)
          (sym e) (download-returns name dest resume announced partial_path body can.whole)))

    request_get-returns :
        (resume : Resume)
        → Contract Never
            (Waiting files (encode_header t_ok n ++ reply))
            (request_get name dest resume)
            (λ _. Anything)
            Never
    unfolding request_get send_get
    request_get-returns resume =
        Contract-then (record { runs = λ w. (write_frame-Waiting _ _).runs w })
          (Contract-bind (read_frame_header-Waiting n reply can.fits refl) (λ h.
            Contract-given (λ e. Contract-then (accepted h e) (
              Contract-bind (read_exact-Waiting get_meta_size can.long) (λ meta.
                Contract-given (λ e'.
                  subst
                    (λ (m : Bytes).
                      Contract Never (Waiting files body)
                        (partial_name dest (parse_meta m).digest path_max >>= λ p.
                          download name dest resume (parse_meta m) p)
                        (λ _. Anything) Never)
                    (sym e') (named-returns resume)))))))
      where
        accepted :
            (h : Header)
            → h ≡ record { type = t_ok; payload_len = n }
            → Contract Never
                (Waiting files reply)
                (check_get_reply h)
                (λ _. Waiting files reply)
                Never
        accepted h e =
            subst
              (λ (g : Header).
                Contract Never (Waiting files reply) (check_get_reply g) (λ _. Waiting files reply)
                  Never)
              (sym e) (record { runs = λ w p. rw (check_get_reply_ok n w) p })

    pub do_get-returns :
        lookup (resolve dest) files ≡ none
        → length name ≤ max_name
        → Contract Never
            (Waiting files (encode_header t_ok n ++ reply))
            (do_get name dest)
            (λ _. Anything)
            Never
    unfolding do_get
    do_get-returns missing short = Contract-bind (file_exists-Waiting dest missing) (λ exists.
        Contract-given (λ none_there.
          Contract-if exists (λ there. absurd cc)
            (λ _. Contract-bind (find_partial-Waiting dest) (λ found.
              Contract-if (ltb max_name (length name))
                (λ long. absurd (ground (arith, long, short)))
                (λ _. request_get-returns (resume_of found))))))
