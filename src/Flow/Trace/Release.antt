-- ===== src/Flow/Trace/Release.antt =====
-- The release of an escrow, too, neither funds one nor makes an intent proposed again.
use Prim.Native.String.{◌++◌ as str_append}
use lumo.Base.{
  Bool, true, false, String, ok, err, or_raise, raise_if, gets, value_error, not, other,
  not_implemented,
}
use lumo.Base.Stays.{Stays, IsPreorder, Stays-result, Stays-or_raise, Stays-bind, Stays-raise_if}
use lumo.Models.{Status, status_eq}
use lumo.Config.{Config}
use lumo.Chain.{ChainAdapter}
use lumo.Anchor.{
  AnchorAdapter, mock_anchor, gcash_anchor, pdax_anchor, mock_cash_out, cash_out, build_anchor,
}
use lumo.Db.Queries.{intent, supplier_by_id}
use lumo.Db.Evolves.{Evolves-refl}
use lumo.Db.Repo.{Repo, new_id, add_chain_tx, add_anchor_payout}
use lumo.Db.Frame.{RowsEvolve, RowsEvolve-preorder, add_chain_tx-Stays, add_anchor_payout-Stays}
use lumo.Pipeline.Amount.{Decimals, AmountPatterns}
use lumo.Pipeline.GuardChain.{release_check}
use lumo.Pipeline.Keeps.{release_check-Stays}
use lumo.Flow.Steps.{on_repo, on_chain, lift, known_intent, chain_intent_id}
use lumo.Flow.Settle.{release, cash_out_if, is_released, sync_status}
use lumo.Flow.Trace.{
  traced, Quiet, Quiet-preorder, on_repo-Quiet, on_chain-Quiet, known_intent-Quiet,
  chain_intent_id-Quiet, sync_status-Quiet,
}

module _ {E : Type 0} where
  abbrev pre : IsPreorder (RowsEvolve {E = E})
  pre = RowsEvolve-preorder

  cash_out-Stays : (a : AnchorAdapter) (id : String) → Stays (RowsEvolve {E = E}) (cash_out a id)
  unfolding cash_out mock_cash_out
  cash_out-Stays mock_anchor id =
      Stays-bind pre (λ s. or_raise (intent id s.db) value_error s) _
        (record { at_state = λ s. (Stays-or_raise pre (intent id s.db) value_error).at_state s })
        λ row.
          Stays-bind pre (raise_if (not (status_eq row.status Status.released)) value_error) _
            (Stays-raise_if pre _ value_error)
            λ _.
              Stays-bind pre (gets (λ (s : Repo E). supplier_by_id row.supplier_id s.db)) _
                (Stays-result pre (λ s. ok (supplier_by_id row.supplier_id s.db)))
                λ supplier.
                  Stays-bind pre new_id _
                    (record { at_state = λ s. record { rows = Evolves-refl s.db.intents } })
                    λ n.
                      Stays-bind pre (or_raise supplier other) _ (Stays-or_raise pre supplier other)
                        λ payee.
                          Stays-bind pre
                            (add_anchor_payout id (str_append "MOCK-" n) row.amount payee.address) _
                            (add_anchor_payout-Stays id (str_append "MOCK-" n) row.amount
                              payee.address)
                            λ _.
                              Stays-result pre
                                (λ s. ok (record { id = str_append "MOCK-" n; to = payee.address }))
  cash_out-Stays gcash_anchor id = Stays-result pre (λ s. err not_implemented)
  cash_out-Stays pdax_anchor id = Stays-result pre (λ s. err not_implemented)

module _ {E C : Type 0} (client : ChainAdapter C) where
  abbrev quiet : IsPreorder (Quiet {E = E} {C = C})
  quiet = Quiet-preorder

  cash_out_if-Quiet :
      (b : Bool) (config : Config) (id : String)
      → Stays (Quiet {E = E}) (cash_out_if (traced client) b config id)
  cash_out_if-Quiet false config id = Stays-result quiet (λ w. ok tt)
  cash_out_if-Quiet true config id =
      Stays-bind quiet (lift (build_anchor config)) _
        (Stays-result quiet (λ w. build_anchor config))
        λ a.
          Stays-bind quiet (on_repo (cash_out a id)) _
            (on_repo-Quiet (cash_out a id) (cash_out-Stays a id))
            λ _. Stays-result quiet (λ w. ok tt)

  module _ {D : Type 0} (dec : Decimals D) (pat : AmountPatterns) (sha : String → String) where
    pub release-Quiet :
        (id source : String) (config : Config)
        → Stays (Quiet {E = E}) (release (traced client) dec pat sha id source config)
    unfolding release traced
    release-Quiet id source config =
        Stays-bind quiet (chain_intent_id id) _ (chain_intent_id-Quiet client id) λ n.
          Stays-bind quiet (known_intent id) _ (known_intent-Quiet client id) λ row.
            Stays-bind quiet (on_repo (release_check dec pat sha config row)) _
              (on_repo-Quiet (release_check dec pat sha config row)
                (release_check-Stays dec pat sha config row))
              λ _.
                Stays-bind quiet (on_chain ((traced client).release n source)) _
                  (on_chain-Quiet (client.release n source))
                  λ r.
                    Stays-bind quiet (on_repo (add_chain_tx id "release" r.tx_hash)) _
                      (on_repo-Quiet (add_chain_tx id "release" r.tx_hash)
                        (add_chain_tx-Stays id "release" r.tx_hash))
                      λ _.
                        Stays-bind quiet (sync_status (traced client) id) _
                          (sync_status-Quiet client id)
                          λ status.
                            Stays-bind quiet
                              (cash_out_if (traced client) (is_released status) config id) _
                              (cash_out_if-Quiet (is_released status) config id)
                              λ _. Stays-result quiet (λ w. ok status)
