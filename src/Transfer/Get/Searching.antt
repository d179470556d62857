-- ===== src/Transfer/Get/Searching.antt =====
-- The search for a partial file and the making of its name read nothing off the connection.
use retriever.Base.{ℕ, ◌+◌, take, leb, Option, some, none}
use retriever.Base.{◌≡◌, refl, ◌∷◌, [], ◌++◌, length, ◌==◌}
use retriever.Os.World.{Bytes, path_too_long}
use retriever.Os.Program.{M, fail, ◌>>◌, say}
use retriever.Os.World.{World}
use retriever.Os.Triples.{Contract, Triple, Anything, Contract-bind, Contract-then}
use retriever.Os.Triples.{Contract-pure, Contract-fail, Contract-if}
use retriever.Os.Triples.{Contract-refuse, Contract-attempt_same}
use retriever.Sha256.Hex.{sha256_hex}
use retriever.Transfer.Path.{max_name, dir_max, token_size, split_path, partial_name}
use retriever.Transfer.Path.{fitting, format_partial, has_slash}
use retriever.Transfer.Partial.{Found, file_exists, find_partial, find_in_dir, inspect_partial}
use retriever.Transfer.Partial.{scan_entries}
use retriever.Transfer.Get.Incoming.{Comes, stat-Comes}
use retriever.Transfer.Get.Incoming.{open_dir-Comes, release-Comes}

-- The path of the partial file for a hash.
abbrev pub IsPartialOf : Bytes → Bytes → Bytes → Type 0
IsPartialOf dest digest p =
    (dir : Bytes) × ((base : Bytes) × ((split_path dest dir_max (max_name + 1) ≡ some (dir, base))
        × (p ≡ format_partial (has_slash dest) dir base (sha256_hex digest token_size))))

-- It is what is made, and nothing else changes.
pub partial_name-IsPartialOf :
    {P : World → Type 0} (dest digest : Bytes) (n : ℕ)
    → Triple P (partial_name dest digest n) (λ p w. IsPartialOf dest digest p × P w) Anything
unfolding partial_name
partial_name-IsPartialOf {P} dest digest n = split (split_path dest dir_max (max_name + 1)) refl
  where
    split :
        (o : Option (Bytes × Bytes))
        → split_path dest dir_max (max_name + 1) ≡ o
        → Triple P
            (elim o as (λ _. M Bytes) [
              | none ↦ say (path_too_long dest) >> fail
              | some (dir, base) ↦
                  fitting dest n
                    (format_partial (has_slash dest) dir base (sha256_hex digest token_size))
            ])
            (λ p w. IsPartialOf dest digest p × P w)
            Anything
    split none e = Contract-refuse
    split (some (dir, base)) e =
        let out : Bytes = format_partial (has_slash dest) dir base (sha256_hex digest token_size) in
        Contract-if (leb n (length out)) (λ _. Contract-refuse)
          (λ _. record { runs = λ w u. ((dir, (base, (e, refl))), u) })

module _ {bytes : Bytes} where
  pub file_exists-Comes :
      {W E : World → Type 0} (path : Bytes)
      → Contract W (Comes bytes) (file_exists path) (λ _. Comes bytes) E
  unfolding file_exists
  file_exists-Comes path =
      Contract-bind (Contract-attempt_same (stat-Comes path)) (λ o. Contract-pure)

  inspect_partial-Comes :
      {W : World → Type 0} (path match : Bytes)
      → Contract W (Comes bytes) (inspect_partial path match) (λ _. Comes bytes) (Comes bytes)
  unfolding inspect_partial
  inspect_partial-Comes path match =
      Contract-bind (Contract-attempt_same (stat-Comes path)) (λ o. Contract-pure)

  find_in_dir-Comes :
      {W : World → Type 0} (dest : Bytes) (n : ℕ) (dir base : Bytes)
      → Contract W (Comes bytes) (find_in_dir dest n dir base) (λ _. Comes bytes) (Comes bytes)
  unfolding find_in_dir
  find_in_dir-Comes dest n dir base = Contract-bind (open_dir-Comes dir) (λ names.
      let scanned : ℕ × Bytes =
        scan_entries (take (max_name + 7) (b'.' ∷ (base ++ (b'.' ∷ [])))) names 0 [] in
      Contract-then release-Comes (
        Contract-if (scanned.0 == 1) (λ _. inspect_partial-Comes _ scanned.1) (λ _. Contract-pure)))

  pub find_partial-Comes :
      {W : World → Type 0} (dest : Bytes) (n : ℕ)
      → Contract W (Comes bytes) (find_partial dest n) (λ _. Comes bytes) (Comes bytes)
  unfolding find_partial
  find_partial-Comes {W} dest n = split (split_path dest dir_max (max_name + 1))
    where
      split :
          (o : Option (Bytes × Bytes))
          → Contract W
              (Comes bytes)
              (elim o as (λ _. M (Option Found)) [
                | none ↦ fail
                | some (dir, base) ↦ find_in_dir dest n dir base
              ])
              (λ _. Comes bytes)
              (Comes bytes)
      split none = Contract-fail
      split (some (dir, base)) = find_in_dir-Comes dest n dir base
