-- ===== src/Conversation/Search.antt =====
-- `rtrv_find_partial` in a directory with one partial file for the destination, without faults.
use retriever.Base.{ℕ, ◌+◌, ◌-◌, ◌≤◌, ◌<◌, ◌≡◌, ap, sym, subst, ◌∙◌, arith, Bool, true, false}
use retriever.Base.{not, ◌&&◌, Bool-cases, inl, inr, List, [], ◌∷◌, ◌++◌, ◌==◌, Option, none, some}
use retriever.Base.{length, length-append, take, take_all, All, bytes_eq, if◌then◌else◌}
use retriever.Packing.Layout.{IsByte}
use retriever.Os.World.{World, Bytes, Key, Node, Message, regular}
use retriever.Os.Program.{M, draw, pure, fail}
use retriever.Os.Files.{lookup, resolve, open_dir, entries}
use retriever.Os.Triples.{Contract, Contract-then, Contract-known}
use retriever.Os.Calm.{Never, attempt-known}
use retriever.Sha256.Hex.{sha256_hex}
use retriever.Transfer.Path.{last_slash, split_dir, dir_max, max_name, path_max, token_size}
use retriever.Transfer.Path.{split_path, has_slash, format_partial, suffix}
use retriever.Transfer.Partial.{Found, scan_entries, partial_path, found_at}
use retriever.Transfer.Partial.{inspect_partial, find_in_dir, find_partial}
use retriever.Transfer.Resuming.{prefix_of, entry, scan_entries-format_partial, length-sha256_hex}
use retriever.Transfer.Get.Beside.{split_path-parts, some_inj}
use retriever.Transfer.Get.Searched.{split_dir-fits, base_fits}
use retriever.Conversation.Frames.{Same, Talking}
use retriever.Conversation.Local.{drawn-Talking, release-Talking, stat-Talking}

-- The path that is made of a name that is found is the one that `rtrv_partial_name` makes.
module _ (dir base t : Bytes) (sized : length t ≡ 16) (short : length dir < 512)
    (small : length base < 256) where
  abbrev name : Bytes
  name = format_partial false [] base t

  length-name : length name ≡ length base + 23
  unfolding format_partial
  length-name = omega (
    arith,
    length-append (b'.' ∷ base) ((b'.' ∷ t) ++ suffix),
    length-append (b'.' ∷ t) suffix,
    sized,
  )

  found_path :
      (dest : Bytes) (o : Option ℕ)
      → split_dir o dest dir_max ≡ some dir
      → take (path_max - 1) (
          if bytes_eq dir (b'.' ∷ [])
            && not (elim o as (λ _. Bool) [ none ↦ false | some i ↦ true ])
          then name
          else dir ++ (b'/' ∷ name))
        ≡ format_partial (elim o as (λ _. Bool) [ none ↦ false | some i ↦ true ]) dir base t
  unfolding split_dir format_partial
  found_path dest none e =
      let same : (b'.' ∷ []) ≡ dir = some_inj e in
      subst
        (λ (d : Bytes).
          take (path_max - 1) (if bytes_eq d (b'.' ∷ []) && true then name else d ++ (b'/' ∷ name))
          ≡ name)
        same (take_all (path_max - 1) name (omega (arith, length-name, small)))
  found_path dest (some i) e =
      let whole : take (path_max - 1) (dir ++ (b'/' ∷ name)) ≡ dir ++ (b'/' ∷ name) =
        take_all (path_max - 1) (dir ++ (b'/' ∷ name))
          (omega (arith, length-name, small, short, length-append dir (b'/' ∷ name))) in
      elim (Bool-cases (bytes_eq dir (b'.' ∷ []))) [ inl h ↦ rw h whole | inr h ↦ rw h whole ]

-- The search in a directory.
module _ (files : List (Key × Node)) (dir : Bytes) {sent : Bytes} {log : List Message}
    {bytes : Bytes} where
  pub open_dir-Talking :
      Contract Never
        (Talking (Same files) sent log bytes)
        (open_dir dir)
        (λ names w. (names ≡ entries (resolve dir) files) × Talking (Same files) sent log bytes w)
        Never
  unfolding open_dir
  open_dir-Talking = record {
    runs = λ w t.
        rw (ap (λ (fs : List Bool). draw fs) t.clear)
          (ap (λ (gs : List (Key × Node)). entries (resolve dir) gs) t.stored, drawn-Talking _ w t);
  }

-- The search of a destination is the one in its directory.
pub find_partial-split :
    (dest dir base : Bytes) {P E : World → Type 0} {Q : Option Found → World → Type 0}
    → split_path dest dir_max (max_name + 1) ≡ some (dir, base)
    → Contract Never P (find_in_dir dest path_max dir base) Q E
    → Contract Never P (find_partial dest path_max) Q E
unfolding find_partial
find_partial-split dest dir base {P} {E} {Q} parts t =
    subst
      (λ (o : Option (Bytes × Bytes)).
        Contract Never P
          (elim o as (λ _. M (Option Found)) [
            | none ↦ fail
            | some (d, b) ↦ find_in_dir dest path_max d b
          ])
          Q E)
      (sym parts) t

-- The file of a partial download and its place.
pub record Kept (files : List (Key × Node)) (dest dir base digest c : Bytes) : Type 0 where
  pub parts : split_path dest dir_max (max_name + 1) ≡ some (dir, base)
  pub bytes : All IsByte digest
  pub long : token_size ≤ length digest
  pub only :
      scan_entries (prefix_of base) (entries (resolve dir) files) 0 [] ≡ (1, entry base digest)
  pub held :
      lookup
        (resolve (format_partial (has_slash dest) dir base (sha256_hex digest token_size)))
        files
      ≡ some (regular c)

abbrev pub partial_of : Bytes → Bytes → Bytes → Bytes → Bytes
partial_of dest dir base digest =
    format_partial (has_slash dest) dir base (sha256_hex digest token_size)

-- What the search gives.
abbrev pub resumable : Bytes → Bytes → Bytes → Bytes → Bytes → Found
resumable dest dir base digest c = record {
  path = partial_of dest dir base digest;
  size = length c;
  token = take token_size digest;
}

module _ (files : List (Key × Node)) (dest dir base digest c : Bytes)
    (kept : Kept files dest dir base digest c) where
  path_same : partial_path dest dir (entry base digest) path_max ≡ partial_of dest dir base digest
  path_same =
      found_path dir base (sha256_hex digest token_size)
        (omega (arith, length-sha256_hex digest token_size))
        (split_dir-fits (last_slash dest) dest dir dir_max
          (split_path-parts dest dir base dir_max (max_name + 1) kept.parts).0)
        (base_fits dest dir base dir_max (max_name + 1) kept.parts) dest (last_slash dest)
        (split_path-parts dest dir base dir_max (max_name + 1) kept.parts).0

  found_at-entry :
      (path : Bytes)
      → found_at path (entry base digest) (length c)
        ≡ some (record { path = path; size = length c; token = take token_size digest })
  found_at-entry path =
      (scan_entries-format_partial base digest path (length c)
        (omega (arith, base_fits dest dir base dir_max (max_name + 1) kept.parts)) kept.bytes
        kept.long).1

  module _ {sent : Bytes} {log : List Message} {bytes : Bytes} where
    inspect_partial-Talking :
        Contract Never
          (Talking (Same files) sent log bytes)
          (inspect_partial (partial_of dest dir base digest) (entry base digest))
          (λ found w.
            (found ≡ some (resumable dest dir base digest c))
            × Talking (Same files) sent log bytes w)
          Never
    unfolding inspect_partial
    inspect_partial-Talking =
        Contract-known _
          (attempt-known (
            stat-Talking (partial_of dest dir base digest) c (λ fs same.
              ap (λ (gs : List (Key × Node)). lookup (resolve (partial_of dest dir base digest)) gs)
                same
              ∙ kept.held)))
          (record { runs = λ w t. (found_at-entry (partial_of dest dir base digest), t) })

    -- What follows the search of the names.
    looked-Talking :
        (scanned : ℕ × Bytes)
        → scanned ≡ (1, entry base digest)
        → Contract Never
            (Talking (Same files) sent log bytes)
            (if scanned.0 == 1
              then inspect_partial (partial_path dest dir scanned.1 path_max) scanned.1
              else pure none)
            (λ found w.
              (found ≡ some (resumable dest dir base digest c))
              × Talking (Same files) sent log bytes w)
            Never
    looked-Talking scanned e =
        subst
          (λ (r : ℕ × Bytes).
            Contract Never (Talking (Same files) sent log bytes)
              (if r.0 == 1
                then inspect_partial (partial_path dest dir r.1 path_max) r.1
                else pure none)
              (λ found w.
                (found ≡ some (resumable dest dir base digest c))
                × Talking (Same files) sent log bytes w)
              Never)
          (sym e) (rw path_same inspect_partial-Talking)

    find_in_dir-Talking :
        Contract Never
          (Talking (Same files) sent log bytes)
          (find_in_dir dest path_max dir base)
          (λ found w.
            (found ≡ some (resumable dest dir base digest c))
            × Talking (Same files) sent log bytes w)
          Never
    unfolding find_in_dir
    find_in_dir-Talking =
        Contract-known _ (open_dir-Talking files dir)
          (Contract-then release-Talking (looked-Talking _ kept.only))

    pub find_partial-Talking :
        Contract Never
          (Talking (Same files) sent log bytes)
          (find_partial dest path_max)
          (λ found w.
            (found ≡ some (resumable dest dir base digest c))
            × Talking (Same files) sent log bytes w)
          Never
    find_partial-Talking = find_partial-split dest dir base kept.parts find_in_dir-Talking
