-- ===== src/Flow/Trace.antt =====
-- The chain adapter with a record of the escrows that may have been funded, and the steps of the
-- flow that neither add to it nor make an intent proposed again.
pub mod Release
use lumo.Base.{
  ℕ, ◌≡◌, refl, ◌∙◌, Bool, true, false, Option, none, some, List, [], ◌∷◌, String, Action, Result,
  ok, err, Error, submitted_unconfirmed, bind_result, pure, raise, or_raise, raise_if, gets, ◌>>=◌,
  ◌>>◌, if◌then◌else◌, value_error, guard_refused, not, not_implemented, Bool-cases, inl, inr,
}
use lumo.Base.Stays.{Stays, IsPreorder, Stays-result, Stays-or_raise, Stays-if, Stays-bind}
use lumo.Models.{TxArgs, Status, status_eq}
use lumo.Config.{Config}
use lumo.Chain.{ChainAdapter, InvokeResult, ChainStatus, Kind, variant_of}
use lumo.Db.Rows.{Intent, DecisionName}
use lumo.Db.Evolves.{Evolves, Evolves-refl, Evolves-trans}
use lumo.Db.Repo.{Repo, emit, mark_released, add_attestation, add_chain_tx}
use lumo.Db.Frame.{
  RowsEvolve, RowsEvolve-preorder, emit-Stays, add_chain_tx-Stays, add_attestation-Stays,
  add_anchor_payout-Stays, mark_released-Stays, follow_up-Stays,
}
use lumo.Oracle.{AttestationSource, local_signer_set, shipment_api, add_all, submit}
use lumo.Flow.Steps.{World, on_repo, on_chain, lift, known_intent, chain_intent_id, chain_to_local}
use lumo.Db.Queries.{intent}
use lumo.Db.Decide.{record_decision}
use lumo.Flow.Settle.{
  approval, reversal, refund_payload, sync_from, advance, sync_with, sync_status, attest, revert,
  attest_action, submit_to,
}

-- A call of `create_intent` after which an escrow may exist.
abbrev pub may_be_funded : Result InvokeResult → Bool
may_be_funded (ok r) = true
may_be_funded (err (submitted_unconfirmed h)) = true
may_be_funded (err e) = false

abbrev pub noted : Result InvokeResult → TxArgs → List TxArgs → List TxArgs
noted r args trace = if may_be_funded r then args ∷ trace else trace

module _ {C A : Type 0} where
  abbrev pub untraced : Action C A → Action (C × List TxArgs) A
  untraced m (c, trace) = let (r, c') = m c in (r, (c', trace))

unfoldable pub traced : {C : Type 0} → ChainAdapter C → ChainAdapter (C × List TxArgs)
traced client = record {
  create_intent = λ args source s.
      let (r, c) = client.create_intent args source s.0 in (r, (c, noted r args s.1));
  attest = λ n oracle kind source. untraced (client.attest n oracle kind source);
  release = λ n source. untraced (client.release n source);
  refund = λ n source. untraced (client.refund n source);
  get_status = λ n. untraced (client.get_status n);
}

module _ {E C : Type 0} where
  pub record Quiet (w v : World E (C × List TxArgs)) : Type 0 where
    pub rows : Evolves w.repo.db.intents v.repo.db.intents
    pub trace : v.chain.1 ≡ w.chain.1

  pub Quiet-preorder : IsPreorder Quiet
  Quiet-preorder = record {
    start = λ w. record { rows = Evolves-refl w.repo.db.intents; trace = refl };
    chain = λ w v u h k. record {
      rows = Evolves-trans w.repo.db.intents v.repo.db.intents u.repo.db.intents h.rows k.rows;
      trace = k.trace ∙ h.trace;
    };
  }

  pub on_repo-Quiet :
      {A : Type 0} (m : Action (Repo E) A) → Stays RowsEvolve m → Stays Quiet (on_repo m)
  on_repo-Quiet m k = record {
    at_state = λ w. record { rows = (k.at_state w.repo).rows; trace = refl };
  }

  pub on_chain-Quiet : {A : Type 0} (m : Action C A) → Stays Quiet (on_chain (untraced m))
  on_chain-Quiet m = record {
    at_state = λ w. record { rows = Evolves-refl w.repo.db.intents; trace = refl };
  }

module _ {E : Type 0} where
  add_all-Stays :
      (signers : List String) (id : String) (k : Kind) (h : String)
      → Stays RowsEvolve (add_all {E = E} signers id k h)
  unfolding add_all
  add_all-Stays [] id k h = Stays-result RowsEvolve-preorder (λ s. ok tt)
  add_all-Stays (x ∷ xs) id k h =
      Stays-bind RowsEvolve-preorder (add_attestation id x k h) _ (add_attestation-Stays id x k h)
        λ _. add_all-Stays xs id k h

  submit-Stays :
      (o : AttestationSource) (id : String) (k : Kind) (h : String)
      → Stays RowsEvolve (submit {E = E} o id k h)
  unfolding submit
  submit-Stays (local_signer_set xs) id k h =
      Stays-bind RowsEvolve-preorder (add_all xs id k h) _ (add_all-Stays xs id k h)
        λ _. Stays-result RowsEvolve-preorder (λ s. ok xs)
  submit-Stays shipment_api id k h = Stays-result RowsEvolve-preorder (λ s. err not_implemented)

  advance-Stays :
      (id : String) (row : Intent) (st : Status) → Stays RowsEvolve (advance {E = E} id row st)
  unfolding advance
  advance-Stays id row Status.escrowed =
      Stays-bind RowsEvolve-preorder (record_decision (approval id row)) _
        (follow_up-Stays (approval id row) refl) λ _. Stays-result RowsEvolve-preorder (λ s. ok tt)
  advance-Stays id row Status.released = mark_released-Stays id
  advance-Stays id row Status.reverted =
      Stays-bind RowsEvolve-preorder (record_decision (reversal id row)) _
        (follow_up-Stays (reversal id row) refl)
        λ _. emit-Stays "intent.refunded" (refund_payload id row)
  advance-Stays id row Status.proposed = Stays-result RowsEvolve-preorder (λ s. ok tt)
  advance-Stays id row Status.held = Stays-result RowsEvolve-preorder (λ s. ok tt)

module _ {E C : Type 0} (client : ChainAdapter C) where
  abbrev pre : IsPreorder (Quiet {E = E} {C = C})
  pre = Quiet-preorder

  pub known_intent-Quiet : (id : String) → Stays (Quiet {E = E} {C = C}) (known_intent id)
  known_intent-Quiet id = record {
    at_state = λ w. (Stays-or_raise pre (intent id w.repo.db) value_error).at_state w;
  }

  chain_intent_id-Quiet : (id : String) → Stays (Quiet {E = E} {C = C}) (chain_intent_id id)
  unfolding chain_intent_id
  chain_intent_id-Quiet id =
      Stays-bind pre (known_intent id) _ (known_intent-Quiet id)
        λ row. Stays-or_raise pre row.chain_intent_id value_error

  sync_with-Quiet :
      (id : String) (row : Intent) (o : Option ChainStatus)
      → Stays Quiet (sync_with {E = E} (traced client) id row o)
  sync_with-Quiet id row none = Stays-result pre (λ w. ok row.status)
  sync_with-Quiet id row (some chain) =
      Stays-bind pre (lift (variant_of chain.status)) _
        (Stays-result pre (λ w. variant_of chain.status))
        λ variant.
          Stays-bind pre (lift (chain_to_local variant)) _
            (Stays-result pre (λ w. chain_to_local variant))
            λ mapped.
              Stays-if pre (status_eq mapped row.status) _ _ (Stays-result pre (λ w. ok mapped)) (
                Stays-bind pre (on_repo (advance id row mapped)) _
                  (on_repo-Quiet (advance id row mapped) (advance-Stays id row mapped))
                  λ _. Stays-result pre (λ w. ok mapped))

  sync_from-Quiet :
      (id : String) (row : Intent) (n : Option ℕ)
      → Stays Quiet (sync_from {E = E} (traced client) id row n)
  unfolding traced
  sync_from-Quiet id row none = Stays-result pre (λ w. ok row.status)
  sync_from-Quiet id row (some n) =
      Stays-bind pre (on_chain ((traced client).get_status n)) _
        (on_chain-Quiet (client.get_status n)) λ o. sync_with-Quiet id row o

  pub sync_status-Quiet : (id : String) → Stays Quiet (sync_status {E = E} (traced client) id)
  unfolding sync_status
  sync_status-Quiet id =
      Stays-bind pre (known_intent id) _ (known_intent-Quiet id)
        λ row. sync_from-Quiet id row row.chain_intent_id

  pub revert-Quiet : (id source : String) → Stays Quiet (revert {E = E} (traced client) id source)
  unfolding revert traced
  revert-Quiet id source = Stays-bind pre (chain_intent_id id) _ (chain_intent_id-Quiet id) λ n.
      Stays-bind pre (on_chain ((traced client).refund n source)) _
        (on_chain-Quiet (client.refund n source))
        λ r.
          Stays-bind pre (on_repo (add_chain_tx id "refund" r.tx_hash)) _
            (on_repo-Quiet (add_chain_tx id "refund" r.tx_hash)
              (add_chain_tx-Stays id "refund" r.tx_hash))
            λ _. sync_status-Quiet id

  submit_to-Quiet :
      (o : Option AttestationSource) (id : String) (k : Kind) (h : String)
      → Stays Quiet (submit_to {E = E} (traced client) o id k h)
  submit_to-Quiet none id k h = Stays-result pre (λ w. ok tt)
  submit_to-Quiet (some o) id k h =
      Stays-bind pre (on_repo (submit o id k h)) _
        (on_repo-Quiet (submit o id k h) (submit-Stays o id k h)) λ _. Stays-result pre (λ w. ok tt)

  pub attest-Quiet :
      (id : String) (k : Kind) (address source : String) (o : Option AttestationSource)
      → Stays Quiet (attest {E = E} (traced client) id k address source o)
  unfolding attest traced
  attest-Quiet id k address source o =
      Stays-bind pre (chain_intent_id id) _ (chain_intent_id-Quiet id) λ n.
        Stays-bind pre (known_intent id) _ (known_intent-Quiet id) λ row.
          Stays-bind pre (on_chain ((traced client).attest n address k source)) _
            (on_chain-Quiet (client.attest n address k source))
            λ r.
              Stays-bind pre (on_repo (add_chain_tx id (attest_action k) r.tx_hash)) _
                (on_repo-Quiet (add_chain_tx id (attest_action k) r.tx_hash)
                  (add_chain_tx-Stays id (attest_action k) r.tx_hash))
                λ _. submit_to-Quiet o id k row.request_hash
