-- ===== src/Transfer/Get/Replied.antt =====
-- `rtrv_do_get` without faults, up to the name of the partial file.
use retriever.Base.{
  ℕ, zero, suc, ◌+◌, ◌*◌, if◌then◌else◌, ◌^◌, ◌≤◌, ◌<◌, ◌≡◌, refl, ap, ◌∙◌, sym, subst, arith, Bool,
  false,
}
use retriever.Base.{Bool-cases, inl, inr, List, [], ◌∷◌, ◌++◌, Option, some, none, length}
use retriever.Base.{length-append, take, drop, ltb, leb}
use retriever.Os.World.{World, Bytes, Key, Node, path_too_long}
use retriever.Os.Program.{◌>>=◌, ◌>>◌, say, fail, err, M, ok, attempt, draw, drawn}
use retriever.Os.Files.{lookup, resolve, stat}
use retriever.Os.Triples.{Contract, Anything, Contract-then, Contract-if}
use retriever.Os.Triples.{Contract-pure, Contract-attempt_same, Contract-weaken, Contract-both}
use retriever.Os.Tracking.{Tracking}
use retriever.Os.Triples.{Contract-also}
use retriever.Os.Calm.{IsCalm, calming, Never, drawn-none, lasts-IsSound, spend-IsSound}
use retriever.Socket.{read_exact, write_all}
use retriever.Socket.Stream.{stream, stream-advance}
use retriever.Socket.Read.{read_exact_full}
use retriever.Socket.Write.{write_all-outcome}
use retriever.Sha256.Hex.{sha256_hex, hex_loop}
use retriever.Frame.{write_frame, read_frame_header, t_ok}
use retriever.Frame.Encoding.{encode_header}
use retriever.Frame.Reading.{read_frame_header_ok, stream-past_header}
use retriever.Transfer.Path.{dir_max, max_name, path_max, token_size, split_path, has_slash}
use retriever.Transfer.Path.{last_slash, suffix, fitting, format_partial, partial_name}
use retriever.Transfer.Partial.{file_exists, find_partial}
use retriever.Transfer.Tracked.{find_partial-Tracked}
use retriever.Transfer.Get.Beside.{split_path-parts}
use retriever.Transfer.Get.Searched.{split_dir-fits, base_fits}
use retriever.Transfer.Get.{check_get_reply}
use retriever.Transfer.Get.Incoming.{Comes}
use retriever.Transfer.Get.Searching.{find_partial-Comes}

-- Nothing fails, and these bytes are still to come.
abbrev pub Coming : Bytes → World → Type 0
Coming bytes w = IsCalm w × Comes bytes w

-- The files as they were at the beginning.
abbrev pub Waiting : List (Key × Node) → Bytes → World → Type 0
Waiting files bytes w = (w.files ≡ files) × Coming bytes w

abbrev pub fixing : (files : List (Key × Node)) → Tracking Anything (λ b h s w. w.files ≡ files)
fixing files = record {
  Allowed = λ k. ⊥;
  logs = λ b h s w log u. u;
  draws = λ b h s w u. u;
  allocates = λ b h s w u. u;
  frees = λ b h s w u. u;
  opens = λ b h s w u. u;
  shuts = λ b h s w u. u;
  connects = λ b h s w u. u;
  disconnects = λ b h s w u. u;
  reads = λ b h s w n u. u;
  idles = λ b h s w n e u. tt;
  writes = λ b h s w n sent u. u;
  stores = λ b h s w k node allowed u. absurd allowed;
  erases = λ b h s w k allowed u. absurd allowed;
}

pub stat_missing :
    (path : Bytes) (w : World)
    → w.faults ≡ []
    → lookup (resolve path) w.files ≡ none
    → stat path w ≡ err (record w { faults = drawn w.faults })
unfolding stat
stat_missing path w calm missing = rw (ap (λ (f : List Bool). draw f) calm, missing)

module _ {files : List (Key × Node)} {bytes : Bytes} where
  write_all-Waiting :
      (p : Bytes)
      → Contract Never (Waiting files bytes) (write_all p) (λ _. Waiting files bytes) Never
  write_all-Waiting p = record {
    runs = λ w (same, ((calm, sound), comes)).
        rw (write_all-outcome p w, lasts-IsSound (length p) w.rooms sound)
          (same, ((calm, spend-IsSound (length p) w.rooms sound), comes));
  }

  pub write_frame-Waiting :
      (type : ℕ) (payload : Bytes)
      → Contract Never
          (Waiting files bytes)
          (write_frame type payload)
          (λ _. Waiting files bytes)
          Never
  unfolding write_frame
  write_frame-Waiting type payload = record {
    runs = λ w.
        (Contract-then (write_all-Waiting _) (
            Contract-if (ltb 0 (length payload)) (λ _. write_all-Waiting payload)
              (λ _. Contract-pure))).runs
          w;
  }

  pub file_exists-Waiting :
      (path : Bytes)
      → lookup (resolve path) files ≡ none
      → Contract Never
          (Waiting files bytes)
          (file_exists path)
          (λ exists w. (exists ≡ false) × Waiting files bytes w)
          Never
  unfolding file_exists
  file_exists-Waiting path missing = record {
    runs = λ w (same, ((calm, sound), comes)).
        rw
          (
            stat_missing path w calm
                (ap (λ (fs : List (Key × Node)). lookup (resolve path) fs) same ∙ missing),
            ◌>>=◌,
          )
          (refl, (same, ((drawn-none calm, sound), comes)));
  }

  found-track :
      (dest : Bytes)
      → Contract Anything
          (λ w. (w.files ≡ files) × (IsCalm w × Comes bytes w))
          (attempt (find_partial dest path_max))
          (λ _ w. (w.files ≡ files) × (IsCalm w × Comes bytes w))
          Anything
  found-track dest =
      Contract-both {E = Anything} {F = Anything}
        (Contract-attempt_same (
          Contract-weaken (find_partial-Tracked (fixing files) {b = 0} {h = 0} {s = 0} dest)
            (λ _ w u. u.1)))
        (Contract-both {E = Anything} {F = Anything}
          (Contract-attempt_same (
            Contract-weaken (find_partial-Tracked calming {b = 0} {h = 0} {s = 0} dest)
              (λ _ w u. u.1)))
          (Contract-attempt_same (find_partial-Comes dest path_max)))

  pub find_partial-Waiting :
      (dest : Bytes)
      → Contract Never
          (Waiting files bytes)
          (attempt (find_partial dest path_max))
          (λ _. Waiting files bytes)
          Never
  find_partial-Waiting dest = record {
    runs = λ w p.
        (Contract-weaken
            (Contract-also (found-track dest)
              (Contract-attempt_same {F = Never} (find_partial-Comes {W = Never} dest path_max)))
            (λ _ w' u. u.0)).runs
          w (p, p.1.1);
  }

  pub read_exact-Waiting :
      (n : ℕ)
      → n ≤ length bytes
      → Contract Never
          (Waiting files bytes)
          (read_exact n)
          (λ got w. (got ≡ take n bytes) × Waiting files (drop n bytes) w)
          Never
  read_exact-Waiting n h = record {
    runs = λ w (same, (c, comes)).
        let enough : n ≤ length (stream w.inbox) =
          subst (λ (s : Bytes). n ≤ length s) (sym comes) h in
        rw (read_exact_full n w enough) (
          ap (λ (s : Bytes). take n s) comes,
          (same, (c, stream-advance n w.inbox enough ∙ ap (λ (s : Bytes). drop n s) comes)),
        );
  }

  -- The reply begins with the header of an OK frame.
  pub read_frame_header-Waiting :
      (n : ℕ) (rest : Bytes)
      → n < 2 ^ 64
      → bytes ≡ encode_header t_ok n ++ rest
      → Contract Never
          (Waiting files bytes)
          read_frame_header
          (λ h w. (h ≡ record { type = t_ok; payload_len = n }) × Waiting files rest w)
          Never
  read_frame_header-Waiting n rest fits spelt = record {
    runs = λ w (same, (calm, comes)).
        rw (read_frame_header_ok t_ok n rest w (omega arith) fits (comes ∙ spelt)) (
          refl,
          (same, (calm, stream-past_header t_ok n rest w (omega arith) fits (comes ∙ spelt))),
        );
  }

pub read_exact-Coming :
    (n : ℕ) (bytes : Bytes)
    → n ≤ length bytes
    → Contract Never
        (Coming bytes)
        (read_exact n)
        (λ got w. (got ≡ take n bytes) × Coming (drop n bytes) w)
        Never
read_exact-Coming n bytes h = record {
  runs = λ w p.
      (Contract-weaken (read_exact-Waiting {files = w.files} {bytes = bytes} n h)
          (λ got w' (e, (same, p')). (e, p'))).runs
        w (refl, p);
}

pub check_get_reply_ok :
    (n : ℕ) (w : World) → check_get_reply (record { type = t_ok; payload_len = n }) w ≡ ok tt w
unfolding check_get_reply
check_get_reply_ok n w = refl

hex_loop-length : (left i : ℕ) (digest : Bytes) → length (hex_loop left i digest) ≡ 2 * left
unfolding hex_loop
hex_loop-length zero i digest = refl
hex_loop-length (suc left) i digest = omega (arith, hex_loop-length left (suc i) digest)

-- What `rtrv_split_path` gives fits the path of a partial file.
pub partial_name_ok :
    (dest digest dir base : Bytes) (w : World)
    → split_path dest dir_max (max_name + 1) ≡ some (dir, base)
    → partial_name dest digest path_max w
      ≡ ok (format_partial (has_slash dest) dir base (sha256_hex digest token_size)) w
unfolding partial_name format_partial sha256_hex
partial_name_ok dest digest dir base w s =
    let small : length base < 256 = base_fits dest dir base dir_max (max_name + 1) s in
    let short : length dir < 512 =
      split_dir-fits (last_slash dest) dest dir dir_max
        (split_path-parts dest dir base dir_max (max_name + 1) s).0 in
    let token : Bytes = sha256_hex digest token_size in
    let name : Bytes = (b'.' ∷ base) ++ ((b'.' ∷ token) ++ suffix) in
    let size : length name ≡ length base + 23 = omega (
      arith,
      length-append (b'.' ∷ base) ((b'.' ∷ token) ++ suffix),
      length-append (b'.' ∷ token) suffix,
      hex_loop-length token_size 0 digest,
    ) in
    let fits : leb path_max (length (if has_slash dest then dir ++ (b'/' ∷ name) else name))
        ≡ false =
      elim (Bool-cases (has_slash dest)) [
        | inl f ↦ rw f (ground (arith, small, short, size, length-append dir (b'/' ∷ name)))
        | inr f ↦ rw f (ground (arith, small, size))
      ] in
    ap
      (λ (o : Option (Bytes × Bytes)).
        (elim o as (λ _. M Bytes) [
          | none ↦ say (path_too_long dest) >> fail
          | some (d, b) ↦
              fitting dest path_max
                (format_partial (has_slash dest) d b (sha256_hex digest token_size))
        ])
          w)
      s
    ∙ rw fits
