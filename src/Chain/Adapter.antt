-- ===== src/Chain/Adapter.antt =====
-- The adapters of lumo/chain/adapter.py, and the choice among them.
use lumo.Base.{
  ℕ, Option, none, some, String, ◌==◌, if◌then◌else◌, Action, Result, ok, err, not_implemented,
  value_error, raise, pure, ◌>>=◌,
}
use lumo.Json.{Json}
use lumo.Models.{TxArgs}
use lumo.Chain.Interface.{InvokeResult, ChainStatus, ChainAdapter}
use lumo.Chain.Soroban.{Cli, SorobanClient, Invoked}
use lumo.Chain.SmartAccount.{SmartAccountClient}

-- How the callers read what the client returns: an intent id, a record of the contract.
pub record Reading : Type 0 where
  pub intent_id : Json → Option ℕ
  pub status : Json → Option ChainStatus

abbrev pub read_result : Reading → Invoked → InvokeResult
read_result reading r = record { value = reading.intent_id r.value; tx_hash = r.tx_hash }

module _ {N : Type 0} (cli : Cli N) (reading : Reading) where
  abbrev pub invoked : Action N Invoked → Action N InvokeResult
  invoked m = do r ← m; pure (read_result reading r)

  -- `self.smart_account_client or self.client`
  abbrev pub create_with :
      Option (TxArgs → Action N InvokeResult)
      → SorobanClient
      → TxArgs
      → String
      → Action N InvokeResult
  create_with none c a source = invoked (lumo.Chain.Soroban.create_intent cli c a (some source))
  create_with (some create) c a source = create a

  -- `SorobanAdapter`, with `create_intent` of a smart account where there is one
  unfoldable pub soroban_adapter :
      SorobanClient → Option (TxArgs → Action N InvokeResult) → ChainAdapter N
  soroban_adapter c smart_account = record {
    create_intent = create_with smart_account c;
    attest = λ id oracle kind source.
        invoked (lumo.Chain.Soroban.attest cli c id oracle kind (some source));
    release = λ id source. invoked (lumo.Chain.Soroban.release cli c id (some source));
    refund = λ id source. invoked (lumo.Chain.Soroban.refund cli c id (some source));
    get_status = λ id. do
      value ← lumo.Chain.Soroban.get_intent cli c id
      pure (reading.status value);
  }

unfoldable pub evm_adapter : {C : Type 0} → ChainAdapter C
evm_adapter = record {
  create_intent = λ a source. raise not_implemented;
  attest = λ id oracle kind source. raise not_implemented;
  release = λ id source. raise not_implemented;
  refund = λ id source. raise not_implemented;
  get_status = λ id. raise not_implemented;
}

-- The settings that the choice reads.
pub record ChainSettings : Type 0 where
  pub chain_adapter : String
  pub escrow_id : String
  pub network : String
  pub sme_source : String
  pub sme_smart_account : String

pub data Choice : Type 0 where
  soroban : SorobanClient → Option SmartAccountClient → Choice
  mock evm : Choice

abbrev pub smart_account_for : ChainSettings → Option SmartAccountClient
smart_account_for s =
    if s.sme_smart_account == ""
    then none
    else some (record {
      escrow_id = s.escrow_id;
      smart_account = s.sme_smart_account;
      owner_source = s.sme_source;
      network = s.network;
    })

unfoldable pub build_chain_adapter : ChainSettings → Result Choice
build_chain_adapter s =
    if s.chain_adapter == "soroban"
    then ok (
        soroban
          (record { escrow_id = s.escrow_id; network = s.network; source = some s.sme_source })
          (smart_account_for s))
    else if s.chain_adapter == "mock"
    then ok mock
    else if s.chain_adapter == "evm"
    then ok evm
    else err value_error
