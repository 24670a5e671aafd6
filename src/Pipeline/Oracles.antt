-- ===== src/Pipeline/Oracles.antt =====
-- The oracles that count for the release of an escrow.
use lumo.Base.{
  ◌⊎◌, ℤ, pos, ◌≡◌, refl, subst, ◌∙◌, sym, Bool, true, false, ◌&&◌, List, [], ◌∷◌, String, ◌==◌, ok,
  elem, any, length, select, map, ltb_ℤ, ◌≤ℤ◌, leb_ℤ_iff, ◌<◌, Bool-cases, inl, inr, bind_ok, arith,
  All, eq_iff,
}
use lumo.Config.{Config}
use lumo.Db.Rows.{Intent, Attestation, Tables}
use lumo.Db.Queries.{attestations}
use lumo.Db.Repo.{Repo}
use lumo.Pipeline.Amount.{Decimals, AmountPatterns}
use lumo.Pipeline.Guards.{
  GuardKind, attestation, k_of_n, to_set, shipped_oracles, is_shipped, check, build_guards,
  check_attestation, check_k_of_n,
}
use lumo.Pipeline.GuardChain.{run_guards, release_check, release_context}
use lumo.Pipeline.Verdict.{Passes, run_guards-passed}

abbrev pub IsDistinct : List String → Type 0
IsDistinct [] = Unit
IsDistinct (x ∷ xs) = (elem x xs ≡ false) × IsDistinct xs

elem-to_set : (a : String) (xs : List String) → elem a (to_set xs) ≡ elem a xs
unfolding to_set
elem-to_set a [] = refl
elem-to_set a (x ∷ xs) = elim (Bool-cases (elem x (to_set xs))) [
  | inl old ↦
      rw (old, elem-to_set a xs)
        (elim (Bool-cases (x == a)) [
          | inl hit ↦
              (let there : elem a xs ≡ true =
                  subst (λ y. elem y xs ≡ true) ((eq_iff x a).0 hit)
                    (sym (elem-to_set x xs) ∙ old) in
                rw (hit, there) refl)
          | inr miss ↦ rw miss refl
        ])
  | inr new ↦ rw (new, elem-to_set a xs) refl
]

to_set-IsDistinct : (xs : List String) → IsDistinct (to_set xs)
unfolding to_set
to_set-IsDistinct [] = tt
to_set-IsDistinct (x ∷ xs) = elim (Bool-cases (elem x (to_set xs))) [
  | inl old ↦ rw old (to_set-IsDistinct xs)
  | inr new ↦ rw new (new, to_set-IsDistinct xs)
]

abbrev pub signs : Intent → String → Attestation → Bool
signs row a x = is_shipped x.kind && x.request_hash == row.request_hash && x.oracle_address == a

elem-select :
    (row : Intent) (a : String) (xs : List Attestation)
    → elem a (
        map
          (λ x. x.oracle_address)
          (select (λ x. is_shipped x.kind && x.request_hash == row.request_hash) xs))
      ≡ any (signs row a) xs
elem-select row a [] = refl
elem-select row a (x ∷ xs) = ground (arith, elem-select row a xs)

-- the addresses of the shipment attestations, with repetitions
abbrev signers : Intent → Tables → List String
signers row db =
    map (λ x. x.oracle_address)
      (select (λ x. is_shipped x.kind && x.request_hash == row.request_hash)
        (attestations row.id db))

-- The oracles of an intent are pairwise different, and an address is among them exactly if the
-- intent has a shipment attestation by it that carries the intent's request hash.
pub shipped_oracles_lem :
    (row : Intent) (db : Tables)
    → IsDistinct (shipped_oracles row db)
      × ((a : String)
          → elem a (shipped_oracles row db) ≡ any (signs row a) (attestations row.id db))
unfolding shipped_oracles
shipped_oracles_lem row db = (
  to_set-IsDistinct (signers row db),
  λ a. elem-to_set a (signers row db) ∙ elem-select row a (attestations row.id db),
)

abbrev pub IsCleared : Config → Intent → Tables → Type 0
IsCleared config row db =
    ((config.require_attestation ≡ false) ⊎ (0 < length (shipped_oracles row db)))
    × ((config.k_of_n ≤ℤ pos 1) ⊎ (config.k_of_n ≤ℤ pos (length (shipped_oracles row db))))

module _ {D : Type 0} (dec : Decimals D) (pat : AmountPatterns) (sha256_hex : String → String) where
  abbrev Clears : Intent → Tables → GuardKind → Bool → Type 0
  Clears row db kind on_ =
      Passes dec pat sha256_hex (release_context row) db (record { kind = kind; enabled = on_ })

  attested :
      (row : Intent) (db : Tables) (on_ : Bool)
      → Clears row db attestation on_
      → (on_ ≡ false) ⊎ (0 < length (shipped_oracles row db))
  unfolding check check_attestation
  attested row db on_ (inl off) = inl (ground arith)
  attested row db on_ (inr (r, checked, fine)) = inr (ground arith)

  enough :
      (row : Intent) (db : Tables) (k : ℤ)
      → Clears row db (k_of_n k) (ltb_ℤ (pos 1) k)
      → (k ≤ℤ pos 1) ⊎ (k ≤ℤ pos (length (shipped_oracles row db)))
  unfolding check check_k_of_n
  enough row db k (inl off) = inl (ground arith)
  enough row db k (inr (r, checked, fine)) =
      inr (ground (arith, leb_ℤ_iff k (pos (length (shipped_oracles row db)))))

  two_guards :
      (config : Config) (row : Intent) (db : Tables)
      → All (Passes dec pat sha256_hex (release_context row) db) (build_guards config)
      → Clears row db attestation config.require_attestation
        × Clears row db (k_of_n config.k_of_n) (ltb_ℤ (pos 1) config.k_of_n)
  unfolding build_guards
  two_guards config row db (i, (p, (s, (a, (k, _))))) = (a, k)

module _ {E D : Type 0} (dec : Decimals D) (pat : AmountPatterns)
    (sha256_hex : String → String) where
  pub release_check-IsCleared :
      (config : Config) (row : Intent) (s : Repo E)
      → (release_check dec pat sha256_hex config row s).0 ≡ ok tt
      → IsCleared config row s.db
  unfolding release_check
  release_check-IsCleared config row s h =
      let asked = run_guards dec pat sha256_hex (build_guards config) (release_context row) s in
      let (v, verdict, rest) = bind_ok asked _ tt h in
      let (a, k) = two_guards dec pat sha256_hex config row s.db (
        run_guards-passed dec pat sha256_hex (build_guards config) (release_context row) v s verdict
          (ground arith)) in
      (
        attested dec pat sha256_hex row s.db config.require_attestation a,
        enough dec pat sha256_hex row s.db config.k_of_n k,
      )
