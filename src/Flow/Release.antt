-- ===== src/Flow/Release.antt =====
-- `release` of lumo/flow.py and the guards before it.
use lumo.Base.{◌≡◌, refl, ◌⊎◌, inl, inr, some, String, Option-cases, Result-cases}
use lumo.Config.{Config}
use lumo.Chain.{ChainAdapter}
use lumo.Db.Rows.{Intent}
use lumo.Db.Queries.{intent}
use lumo.Pipeline.Amount.{Decimals, AmountPatterns}
use lumo.Pipeline.GuardChain.{release_check}
use lumo.Pipeline.Oracles.{IsCleared, release_check-IsCleared}
use lumo.Flow.Steps.{World, chain_intent_id}
use lumo.Flow.Settle.{release}

module _ {E C D : Type 0} (client : ChainAdapter C) (dec : Decimals D) (pat : AmountPatterns)
    (sha256_hex : String → String) where
  -- A call of `release` leaves the chain as it is, or the intent is in the repository and the
  -- attestations that it had there at the call satisfy the configuration: at least one oracle has
  -- attested the shipment if an attestation is required, and at least `k_of_n` oracles have if
  -- `k_of_n` is more than one.
  pub release-IsCleared :
      (id source : String) (config : Config) (w : World E C)
      → ((release client dec pat sha256_hex id source config w).1.chain ≡ w.chain)
        ⊎ (row : Intent) × (intent id w.repo.db ≡ some row) × IsCleared config row w.repo.db
  unfolding release chain_intent_id
  release-IsCleared id source config w = elim (Option-cases (intent id w.repo.db)) [
    | inl unknown ↦ inl (rw unknown refl)
    | inr (row, e) ↦ elim (Option-cases row.chain_intent_id) [
      | inl unfunded ↦ inl (rw (e, unfunded) refl)
      | inr (n, f) ↦ elim (Result-cases (release_check dec pat sha256_hex config row w.repo).0) [
        | inl (tt, cleared) ↦
            inr (row, e, release_check-IsCleared dec pat sha256_hex config row w.repo cleared)
        | inr (x, stopped) ↦ inl (rw (e, f, e, stopped) refl)
      ]
    ]
  ]
