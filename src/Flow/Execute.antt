-- ===== src/Flow/Execute.antt =====
-- `execute` of lumo/flow.py: from a proposed intent to a funded escrow.
pub mod Claim
pub mod Outcome
pub mod Holds
pub mod Once
pub mod Again
use lumo.Base.{
  ℕ, ℤ, Option, none, some, List, [], ◌∷◌, String, ◌==◌, if◌then◌else◌, not, Bool, true, false,
  lookup, Action, Result, ok, err, pure, raise, raise_if, or_raise, gets, ◌>>=◌, ◌>>◌, bind_result,
  value_error, chain_error, key_error, other, submitted_unconfirmed, Error,
}
use lumo.Models.{Status, status_eq, TxArgs}
use lumo.Config.{Config}
use lumo.Chain.{ChainAdapter, ChainStatus, InvokeResult, variant_of}
use lumo.Db.Rows.{Intent, DecisionName, Supplier, Tables}
use lumo.Db.Queries.{supplier_by_id}
use lumo.Db.Repo.{Repo, claim_escrow, release_escrow_claim, add_chain_tx, set_chain_intent}
use lumo.Db.Decide.{Decision, record_decision}
use lumo.Flow.Steps.{World, on_repo, on_chain, lift, known_intent}

abbrev pub is_proposed_status : Status → Bool
is_proposed_status st = status_eq st Status.proposed

-- the decision that records a confirmed escrow
abbrev pub funding : String → Intent → InvokeResult → Decision
funding id row result = record {
  decision = DecisionName.approved;
  codes = "ESCROWED_ONCHAIN" ∷ [];
  request_hash = row.request_hash;
  intent = none;
  intent_id = some id;
  detail = result.tx_hash;
}

-- `config.sme_smart_account or rules["sme_address"]`
abbrev pub paying_account : Config → Tables → Option String
paying_account config db =
    if config.sme_smart_account == ""
    then lookup "sme_address" db.policy_rules
    else some config.sme_smart_account

-- The arguments of the call of `create_intent`; reading a missing rule or a missing supplier raises.
abbrev pub args_from : Option String → Option Supplier → Intent → Result TxArgs
args_from none supplier row = err key_error
args_from (some sme) none row = err other
args_from (some sme) (some supplier) row = ok (record {
  sme = sme;
  supplier = supplier.address;
  token = row.token;
  amount = row.amount;
  request_hash = row.request_hash;
  deadline = row.deadline;
})

unfoldable pub call_args : Intent → Config → Tables → Result TxArgs
call_args row config db =
    args_from (paying_account config db) (supplier_by_id row.supplier_id db) row

-- `str.lower` is a parameter.
module _ {E C : Type 0} (client : ChainAdapter C) (lower : String → String) where
  -- the call of `create_intent` in the `try` block
  unfoldable pub create : Intent → String → Config → Action (World E C) InvokeResult
  unfolding call_args
  create row source config = do
    args ← (λ w. (call_args row config w.repo.db, w))
    on_chain (client.create_intent args source)

  -- `if exc.tx_hash: repo.add_chain_tx(…)`
  abbrev pub note_tx : String → Option String → Action (World E C) (Unit {0})
  note_tx id none = pure tt
  note_tx id (some hash) =
      if hash == "" then pure tt else on_repo (add_chain_tx id "create_intent" (some hash))

  -- the two `except` clauses
  unfoldable pub recover : String → Error → Action (World E C) InvokeResult
  recover id (submitted_unconfirmed tx_hash) =
      note_tx id tx_hash >> raise (submitted_unconfirmed tx_hash)
  recover id e = on_repo (release_escrow_claim id) >> raise e

  abbrev pub catch : Result InvokeResult × World E C → String → Result InvokeResult × World E C
  catch (ok r, w) id = (ok r, w)
  catch (err e, w) id = recover id e w

  -- from the confirmed escrow on
  unfoldable pub confirm : String → Intent → InvokeResult → Action (World E C) (Option ℕ)
  confirm id row result = do
    chain_id ← or_raise result.value other
    on_repo (add_chain_tx id "create_intent" result.tx_hash)
    on_repo (set_chain_intent id chain_id)
    status ← on_chain (client.get_status chain_id)
    chain ← or_raise status chain_error
    raise_if (not (lower chain.request_hash == lower row.request_hash)) chain_error
    variant ← lift (variant_of chain.status)
    raise_if (not (variant == "Funded")) chain_error
    on_repo (record_decision (funding id row result))
    pure (some chain_id)

  unfoldable pub submit : String → Intent → String → Config → Action (World E C) (Option ℕ)
  unfolding confirm
  submit id row source config = do
    result ← (λ w. catch (create row source config w) id)
    confirm id row result

  -- what follows the lookup, by `config.dry_run`
  abbrev pub execute_as : Bool → String → Intent → String → Config → Action (World E C) (Option ℕ)
  execute_as true id row source config = do
    raise_if (not (is_proposed_status row.status)) value_error
    pure none
  execute_as false id row source config = do
    claimed ← on_repo (claim_escrow id)
    if claimed then submit id row source config else pure none

  unfoldable pub execute : String → String → Config → Action (World E C) (Option ℕ)
  unfolding submit
  execute id source config = do
    row ← known_intent id
    execute_as config.dry_run id row source config
