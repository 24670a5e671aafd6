-- ===== src/Flow/Settle.antt =====
-- lumo/chain/mapper.py, and `attest`, `release` and `revert` of lumo/flow.py.
use lumo.Base.{
  List, ℕ, Option, none, some, [], ◌∷◌, String, if◌then◌else◌, Bool, true, false, Action, pure,
  ◌>>=◌, ◌>>◌,
}
use lumo.Models.{Status, status_eq}
use lumo.Config.{Config}
use lumo.Chain.{ChainAdapter, ChainStatus, variant_of, Kind, shipped, failed}
use lumo.Db.Rows.{Intent, DecisionName}
use lumo.Db.Repo.{Repo, mark_released, emit, add_chain_tx}
use lumo.Db.Decide.{Decision, record_decision}
use lumo.Monitor.{text, Value}
use lumo.Oracle.{AttestationSource, submit}
use lumo.Anchor.{build_anchor, cash_out}
use lumo.Pipeline.Amount.{Decimals, AmountPatterns}
use lumo.Pipeline.GuardChain.{release_check}
use lumo.Flow.Steps.{World, on_repo, on_chain, lift, known_intent, chain_intent_id, chain_to_local}

abbrev pub attest_action : Kind → String
attest_action shipped = "attest_shipped"
attest_action failed = "attest_failed"

abbrev pub is_released : Status → Bool
is_released st = status_eq st Status.released

abbrev pub approval : String → Intent → Decision
approval id row = record {
  decision = DecisionName.approved;
  codes = "CHAIN_FUNDED" ∷ [];
  request_hash = row.request_hash;
  intent = none;
  intent_id = some id;
  detail = none;
}

abbrev pub reversal : String → Intent → Decision
reversal id row = record {
  decision = DecisionName.reverted;
  codes = "CHAIN_REFUNDED" ∷ [];
  request_hash = row.request_hash;
  intent = none;
  intent_id = some id;
  detail = none;
}

abbrev pub refund_payload : String → Intent → List (String × Value)
refund_payload id row =
    ("intent_id", text (some id)) ∷ ("request_hash", text (some row.request_hash)) ∷ []

module _ {E : Type 0} where
  -- what `sync_status` writes when the chain says otherwise than the row
  unfoldable pub advance : String → Intent → Status → Action (Repo E) (Unit {0})
  advance id row Status.escrowed = record_decision (approval id row) >> pure tt
  advance id row Status.released = mark_released id
  advance id row Status.reverted =
      record_decision (reversal id row) >> emit "intent.refunded" (refund_payload id row)
  advance id row _ = pure tt

module _ {E C : Type 0} (client : ChainAdapter C) where
  abbrev pub sync_with : String → Intent → Option ChainStatus → Action (World E C) Status
  sync_with id row none = pure row.status
  sync_with id row (some chain) = do
    variant ← lift (variant_of chain.status)
    mapped ← lift (chain_to_local variant)
    if status_eq mapped row.status
        then pure mapped
        else (do on_repo (advance id row mapped); pure mapped)

  abbrev pub sync_from : String → Intent → Option ℕ → Action (World E C) Status
  sync_from id row none = pure row.status
  sync_from id row (some n) = do chain ← on_chain (client.get_status n); sync_with id row chain

  unfoldable pub sync_status : String → Action (World E C) Status
  unfolding advance chain_to_local
  sync_status id = do row ← known_intent id; sync_from id row row.chain_intent_id

  abbrev pub submit_to :
      Option AttestationSource → String → Kind → String → Action (World E C) (Unit {0})
  submit_to none id kind request_hash = pure tt
  submit_to (some oracle) id kind request_hash =
      on_repo (submit oracle id kind request_hash) >> pure tt

  unfoldable pub attest :
      String → Kind → String → String → Option AttestationSource → Action (World E C) (Unit {0})
  unfolding chain_intent_id
  attest id kind oracle_address oracle_source oracle = do
    n ← chain_intent_id id
    row ← known_intent id
    result ← on_chain (client.attest n oracle_address kind oracle_source)
    on_repo (add_chain_tx id (attest_action kind) result.tx_hash)
    submit_to oracle id kind row.request_hash

  abbrev pub cash_out_if : Bool → Config → String → Action (World E C) (Unit {0})
  cash_out_if false config id = pure tt
  cash_out_if true config id = do
    anchor ← lift (build_anchor config)
    on_repo (cash_out anchor id)
    pure tt

  unfoldable pub revert : String → String → Action (World E C) Status
  unfolding chain_intent_id sync_status
  revert id source = do
    n ← chain_intent_id id
    result ← on_chain (client.refund n source)
    on_repo (add_chain_tx id "refund" result.tx_hash)
    sync_status id

  module _ {D : Type 0} (dec : Decimals D) (pat : AmountPatterns)
      (sha256_hex : String → String) where
    unfoldable pub release : String → String → Config → Action (World E C) Status
    unfolding chain_intent_id sync_status
    release id source config = do
      n ← chain_intent_id id
      row ← known_intent id
      on_repo (release_check dec pat sha256_hex config row)
      result ← on_chain (client.release n source)
      on_repo (add_chain_tx id "release" result.tx_hash)
      status ← sync_status id
      cash_out_if (is_released status) config id
      pure status
