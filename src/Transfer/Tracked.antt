-- ===== src/Transfer/Tracked.antt =====
-- Hashing a file and looking for a partial file leave the counts as they were.
use retriever.Base.{ℕ, suc, ◌+◌, leb, []}
use retriever.Base.{take, ◌++◌, Option, some, none, length, ◌==◌, ◌∷◌}
use retriever.Os.World.{World, Bytes, Node, path_too_long}
use retriever.Os.Program.{M, fail, ◌>>◌, say}
use retriever.Os.Triples.{Contract, Contract-bind, Contract-then, Contract-pure}
use retriever.Os.Triples.{Contract-fail, Contract-if, Contract-attempt_same}
use retriever.Os.Tracking.{Tracking}
use retriever.Os.World.{World}
use retriever.Os.Tracking.{say-Tracked, release-Tracked}
use retriever.Os.Tracking.{stat-Tracked, open_read-Tracked, fread-Tracked}
use retriever.Os.Tracking.{open_dir-Tracked}
use retriever.Os.Triples.{Contract-loose}
use retriever.Base.{◌≡◌, refl, true, inl, inr, arith, drop, ◌-◌, ◌*◌}
use retriever.Os.Files.{node_size}
use retriever.Transfer.Path.{path_max, suffix}
use retriever.Transfer.Partial.{partial_path, found_at, scan_token}
use retriever.Transfer.Get.Beside.{IsBeside}
use retriever.Transfer.Get.Searched.{Scanned, scan_entries-Scanned, partial_path-IsBeside}
use retriever.Sha256.File.{sha256_file}
use retriever.Os.Triples.{Settles-Ends}
use retriever.Sha256.Reading.{sha256_file-HashOf}
use retriever.Sha256.Keeping.{sha256_file-keeps}
use retriever.Transfer.Path.{max_name, dir_max, split_path, partial_name, fitting}
use retriever.Transfer.Path.{format_partial, has_slash, token_size}
use retriever.Sha256.Hex.{sha256_hex}
use retriever.Transfer.Resuming.{length-sha256_hex}
use retriever.Transfer.Partial.{
  file_exists, find_partial, find_in_dir, inspect_partial, scan_entries, Found,
}

-- What a search gives, if anything.
abbrev pub IsFound : Bytes → Option Found → Type 0
IsFound dest none = Unit {0}
IsFound dest (some f) = IsBeside dest f.path

found_at-IsFound :
    (dest path match : Bytes) (size : ℕ)
    → IsBeside dest path
    → IsFound dest (found_at path match size)
found_at-IsFound dest path match size beside =
    token (scan_token token_size (drop (length match - 5 - token_size * 2) match))
  where
    token :
        (o : Option Bytes)
        → IsFound dest (elim o as (λ _. Option Found) [
          | none ↦ none
          | some token ↦ some (record { path = path; size = size; token = token })
        ])
    token none = tt
    token (some t) = beside

match-IsBeside :
    (dest dir base : Bytes) (scanned : ℕ × Bytes)
    → split_path dest dir_max (max_name + 1) ≡ some (dir, base)
    → Scanned (take (max_name + 7) (b'.' ∷ (base ++ (b'.' ∷ [])))) scanned
    → (scanned.0 == 1) ≡ true
    → IsBeside dest (partial_path dest dir scanned.1 path_max)
match-IsBeside dest dir base scanned e (inl zero) one = absurd (ground (arith, zero, one))
match-IsBeside dest dir base scanned e (inr (name, (is, same))) one =
    rw same (partial_path-IsBeside dest dir base name e is)

module _ {W : World → Type 0} {I : ℕ → ℕ → ℕ → World → Type 0} (L : Tracking W I) where
  module _ {b h s : ℕ} where
    pub sha256_file-Tracked :
        (path : Bytes) → Contract W (I b h s) (sha256_file path) (λ _. I b h s) (I b h s)
    sha256_file-Tracked path = record {
      runs = λ w u.
          Settles-Ends W (λ _. I b h s) _ (I b h s) _ (sha256_file path w)
            ((sha256_file-keeps {J = I b (suc h) s} path (Contract-loose (open_read-Tracked L path))
                (λ n f. Contract-loose (fread-Tracked L n f))
                (Contract-loose (release-Tracked L))).runs
              w u)
            (sha256_file-HashOf path w);
    }

    pub file_exists-Tracked :
        {E : World → Type 0} (path : Bytes)
        → Contract W (I b h s) (file_exists path) (λ _. I b h s) E
    unfolding file_exists
    file_exists-Tracked path =
        Contract-bind (Contract-attempt_same (stat-Tracked L path)) (λ o. Contract-pure)

    inspect_partial-Tracked :
        {E : World → Type 0} (dest path match : Bytes)
        → IsBeside dest path
        → Contract W
            (I b h s)
            (inspect_partial path match)
            (λ found w. IsFound dest found × I b h s w)
            E
    unfolding inspect_partial
    inspect_partial-Tracked dest path match beside =
        Contract-bind (Contract-attempt_same (stat-Tracked L path))
          (λ node. record { runs = λ w u. (found node, u) })
      where
        found :
            (node : Option Node)
            → IsFound dest (elim node as (λ _. Option Found) [
              | none ↦ none
              | some node ↦ found_at path match (node_size node)
            ])
        found none = tt
        found (some node) = found_at-IsFound dest path match (node_size node) beside

    find_in_dir-Tracked :
        (dest dir base : Bytes)
        → split_path dest dir_max (max_name + 1) ≡ some (dir, base)
        → Contract W
            (I b h s)
            (find_in_dir dest path_max dir base)
            (λ found w. IsFound dest found × I b h s w)
            (I b h s)
    unfolding find_in_dir
    find_in_dir-Tracked dest dir base e = Contract-bind (open_dir-Tracked L dir) (λ names.
        let prefix : Bytes = take (max_name + 7) (b'.' ∷ (base ++ (b'.' ∷ []))) in
        let scanned : ℕ × Bytes = scan_entries prefix names 0 [] in
        Contract-then (release-Tracked L) (
          Contract-if (scanned.0 == 1)
            (λ one.
              inspect_partial-Tracked dest (partial_path dest dir scanned.1 path_max) scanned.1 (
                match-IsBeside dest dir base scanned e
                  (scan_entries-Scanned prefix names 0 [] (inl refl)) one))
            (λ _. record { runs = λ w u. (tt, u) })))

    -- What is found is a partial file of the destination.
    pub find_partial-Tracked :
        (dest : Bytes)
        → Contract W
            (I b h s)
            (find_partial dest path_max)
            (λ found w. IsFound dest found × I b h s w)
            (I b h s)
    unfolding find_partial
    find_partial-Tracked dest = split (split_path dest dir_max (max_name + 1)) refl
      where
        split :
            (o : Option (Bytes × Bytes))
            → split_path dest dir_max (max_name + 1) ≡ o
            → Contract W
                (I b h s)
                (elim o as (λ _. M (Option Found)) [
                  | none ↦ fail
                  | some (dir, base) ↦ find_in_dir dest path_max dir base
                ])
                (λ found w. IsFound dest found × I b h s w)
                (I b h s)
        split none e = Contract-fail
        split (some (dir, base)) e = find_in_dir-Tracked dest dir base e

    -- The name of a partial file stands beside the destination.
    pub partial_name-Tracked :
        (dest digest : Bytes) (n : ℕ)
        → Contract W
            (I b h s)
            (partial_name dest digest n)
            (λ p w. IsBeside dest p × I b h s w)
            (I b h s)
    unfolding partial_name format_partial
    partial_name-Tracked dest digest n = split (split_path dest dir_max (max_name + 1)) refl
      where
        split :
            (o : Option (Bytes × Bytes))
            → split_path dest dir_max (max_name + 1) ≡ o
            → Contract W
                (I b h s)
                (elim o as (λ _. M Bytes) [
                  | none ↦ say (path_too_long dest) >> fail
                  | some (dir, base) ↦
                      fitting dest n
                        (format_partial (has_slash dest) dir base (sha256_hex digest token_size))
                ])
                (λ p w. IsBeside dest p × I b h s w)
                (I b h s)
        split none e = Contract-then (say-Tracked L) Contract-fail
        split (some (dir, base)) e =
            let token : Bytes = sha256_hex digest token_size in
            let out : Bytes = format_partial (has_slash dest) dir base token in
            Contract-if (leb n (length out)) (λ _. Contract-then (say-Tracked L) Contract-fail)
              (λ _. record {
                runs = λ w u. (
                  (
                    dir,
                    (
                      base,
                      (
                        token ++ suffix,
                        (e, ((token, (length-sha256_hex digest token_size, refl)), refl)),
                      ),
                    ),
                  ),
                  u,
                );
              })
