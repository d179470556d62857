-- ===== src/Transfer/Get/Delivery.antt =====
-- A correct server delivers its file.
use retriever.Base.{ℕ, ◌+◌, ◌^◌, ◌≤◌, ◌<◌, ◌≡◌, refl, ap, ◌∙◌, sym, subst, arith}
use retriever.Base.{[], ◌++◌, none, some, length, length-append, take, drop}
use retriever.Base.{take-append, drop-append}
use retriever.Os.World.{World, Bytes, Key, Node}
use retriever.Base.{List}
use retriever.Os.Files.{lookup, resolve}
use retriever.Os.Triples.{Ends, Contract-weaken}
use retriever.Os.Triples.{Contract-also}
use retriever.Os.Calm.{IsSound}
use retriever.Socket.Stream.{stream}
use retriever.Sha256.Padding.{sha256}
use retriever.Sha256.Keeping.{length-sha256}
use retriever.Sha256.Shape.{sha256-All}
use retriever.Sha256.Hex.{sha256_hex}
use retriever.Frame.{header_size, t_ok}
use retriever.Frame.Encoding.{encode_header, length-encode_header}
use retriever.Transfer.Path.{dir_max, max_name, token_size, split_path, has_slash, format_partial}
use retriever.Transfer.Get.{Meta, parse_meta, body_size, get_meta_size, do_get}
use retriever.Transfer.Get.Appending.{Holds}
use retriever.Transfer.Get.Integrity.{Got, begun, meta_bytes, body_bytes, do_get-Triple}
use retriever.Transfer.Get.Completing.{IsPlain}
use retriever.Transfer.Get.Offering.{offer_of, offer_of-length, parse_meta-offer_of}
use retriever.Transfer.Get.Success.{IsWhole, CanServe, do_get-returns}

-- The metadata for what is behind an offset of a file.
abbrev pub offer_from : ℕ → Bytes → Bytes
offer_from start body = offer_of (length body) start (sha256 body)

-- The metadata for a whole file.
abbrev pub offer : Bytes → Bytes
offer body = offer_from 0 body

pub offer_from-length : (start : ℕ) (body : Bytes) → length (offer_from start body) ≡ get_meta_size
offer_from-length start body =
    offer_of-length (length body) start (sha256 body) (length-sha256 body)

pub parse_meta-offer_from :
    (start : ℕ) (body : Bytes)
    → length body < 2 ^ 64
    → start < 2 ^ 64
    → parse_meta (offer_from start body)
      ≡ record { total_size = length body; start = start; digest = sha256 body }
parse_meta-offer_from start body fits within =
    parse_meta-offer_of (length body) start (sha256 body) (length-sha256 body) (sha256-All body)
      fits within

-- What is got is the whole body.
delivered :
    (dest body more : Bytes) (files : List (Key × Node)) (m : Meta) (came : Bytes) (w : World)
    → m ≡ record { total_size = length body; start = 0; digest = sha256 body }
    → came ≡ body ++ more
    → length body < 2 ^ 64
    → Got dest files m came w
    → Holds (resolve dest) body w
delivered dest body more files m came w e e' small (partial, ((at, enough), (hashed, held))) =
    let size : body_size m ≡ length body =
      ap (λ (x : Meta). body_size x) e ∙ omega (arith, small) in
    let nothing : begun files partial m ≡ [] = ap (λ (x : Meta). begun files partial x) e in
    let all : take (body_size m) came ≡ body =
      ap (λ (n : ℕ). take n came) size
      ∙ ap (λ (b : Bytes). take (length body) b) e'
      ∙ take-append (length body) body more refl in
    subst (λ (b : Bytes). Holds (resolve dest) b w)
      (ap (λ (b : Bytes). b ++ take (body_size m) came) nothing ∙ all) held

-- Where no call of the C library fails, the connection takes what is sent, and the reply is an OK
-- frame with the size, the offset 0, the hash and the contents of a file: `rtrv_do_get` returns 0 and
-- the contents stand at the destination. The name and the path must be within their limits, nothing
-- may stand at the destination and nothing but a regular file at the place of the partial file;
-- whatever other partial files there are, and in whatever pieces the reply arrives.
pub do_get-delivers :
    (name dest dir base body more : Bytes) (n : ℕ) (w : World)
    → w.faults ≡ []
    → IsSound w.rooms
    → stream w.inbox ≡ encode_header t_ok n ++ (offer body ++ (body ++ more))
    → n < 2 ^ 64
    → length body < 2 ^ 64
    → length name ≤ max_name
    → split_path dest dir_max (max_name + 1) ≡ some (dir, base)
    → lookup (resolve dest) w.files ≡ none
    → IsPlain (
        lookup
          (resolve (format_partial (has_slash dest) dir base (sha256_hex (sha256 body) token_size)))
          w.files)
    → Ends (λ _. Holds (resolve dest) body) (λ _. ⊥) (do_get name dest w)
do_get-delivers name dest dir base body more n w clear sound comes fits small short splits missing
      plain =
    let reply : Bytes = offer body ++ (body ++ more) in
    let bytes : Bytes = encode_header t_ok n ++ reply in
    let behind : drop header_size bytes ≡ reply =
      drop-append header_size (encode_header t_ok n) reply (length-encode_header t_ok n) in
    let first : take get_meta_size reply ≡ offer body =
      take-append get_meta_size (offer body) (body ++ more) (offer_from-length 0 body) in
    let rest : drop get_meta_size reply ≡ body ++ more =
      drop-append get_meta_size (offer body) (body ++ more) (offer_from-length 0 body) in
    let meta : Meta = record { total_size = length body; start = 0; digest = sha256 body } in
    let parsed : parse_meta (take get_meta_size reply) ≡ meta =
      ap (λ (b : Bytes). parse_meta b) first ∙ parse_meta-offer_from 0 body small (omega arith) in
    let size : body_size meta ≡ length body = omega (arith, small) in
    let whole : IsWhole meta (body ++ more) = record {
      fresh = refl;
      enough = omega (arith, size, length-append body more);
      hashed =
          ap (λ (b : Bytes). sha256 b) (sym (take-append (body_size meta) body more (sym size)));
    } in
    let can : CanServe name dest dir base w.files n reply = record {
      fits = fits;
      long = omega (arith, length-append (offer body) (body ++ more), offer_from-length 0 body);
      whole = rw (parsed, rest) whole;
      splits = splits;
      plain = rw parsed plain;
    } in
    (Contract-weaken
        (Contract-also (do_get-Triple name dest bytes w.files)
          (do_get-returns name dest dir base w.files n reply can missing short))
        (λ _ w' (got, u).
          delivered dest body more w.files (parse_meta (meta_bytes bytes)) (body_bytes bytes) w'
            (ap (λ (b : Bytes). parse_meta (take get_meta_size b)) behind ∙ parsed)
            (ap (λ (b : Bytes). drop get_meta_size b) behind ∙ rest) small got)).runs
      w ((comes, refl), (refl, ((clear, sound), comes)))
