-- ===== src/Chain/Soroban/Operation.antt =====
-- The operations of the client as data, and what each is to ask the contract for.
use lumo.Base.{ℕ, Option, none, some, [], ◌∷◌, String, pos, Action, ◌>>=◌, pure, or_default}
use lumo.Json.{Json, null}
use lumo.Models.{TxArgs}
use lumo.Chain.Interface.{Kind}
use lumo.Chain.Soroban.{
  Args, Cli, SorobanClient, create_intent, attest, release, refund, add_oracle, get_intent, balance,
  kind_name, or_else,
}
use lumo.Chain.Soroban.Command.{Invocation}

-- The operations of `SorobanClient`, each with its `source` where it has one.
pub data Operation : Type 0 where
  creates : TxArgs → Option String → Operation
  attests : ℕ → String → Kind → Option String → Operation
  releases : ℕ → Option String → Operation
  refunds : ℕ → Option String → Operation
  adds_oracle : String → Option String → Operation
  gets_intent : ℕ → Operation
  reads_balance : String → String → Operation

abbrev pub source_of : Operation → Option String
source_of (creates a source) = source
source_of (attests id oracle kind source) = source
source_of (releases id source) = source
source_of (refunds id source) = source
source_of (adds_oracle oracle source) = source
source_of (gets_intent id) = none
source_of (reads_balance token_id address) = none

abbrev pub drop_result : {S A : Type 0} → Action S A → Action S (Unit {0})
drop_result m = m >>= λ _. pure tt

module _ {N : Type 0} (cli : Cli N) (c : SorobanClient) where
  abbrev pub perform : Operation → Action N (Unit {0})
  perform (creates a source) = drop_result (create_intent cli c a source)
  perform (attests id oracle kind source) = drop_result (attest cli c id oracle kind source)
  perform (releases id source) = drop_result (release cli c id source)
  perform (refunds id source) = drop_result (refund cli c id source)
  perform (adds_oracle oracle source) = drop_result (add_oracle cli c oracle source)
  perform (gets_intent id) = drop_result (get_intent cli c id)
  perform (reads_balance token_id address) = drop_result (balance cli c token_id address)

  -- a call of the escrow contract that is sent as a transaction
  abbrev pub sent_call : String → String → Args → Invocation
  sent_call from function args = record {
    contract_id = c.escrow_id;
    source = from;
    network = c.network;
    send = none;
    function = function;
    args = args;
  }

  -- What the contract is to be asked for, `from` being the account that pays.
  abbrev pub request : String → Operation → Invocation
  request from (creates a source) = sent_call from "create_intent" (
      ("sme", a.sme)
      ∷ ("supplier", a.supplier)
      ∷ ("token", a.token)
      ∷ ("amount", cli.show a.amount)
      ∷ ("request_hash", a.request_hash)
      ∷ ("deadline", cli.show a.deadline)
      ∷ [])
  request from (attests id oracle kind source) = sent_call from "attest" (
      ("intent_id", cli.show (pos id))
      ∷ ("oracle", oracle)
      ∷ ("kind", cli.dumps (lumo.Json.Json.text (kind_name kind)))
      ∷ [])
  request from (releases id source) =
      sent_call from "release" (("intent_id", cli.show (pos id)) ∷ [])
  request from (refunds id source) = sent_call from "refund" (("intent_id", cli.show (pos id)) ∷ [])
  request from (adds_oracle oracle source) = sent_call from "add_oracle" (("oracle", oracle) ∷ [])
  request from (gets_intent id) = record {
    contract_id = c.escrow_id;
    source = from;
    network = c.network;
    send = some "no";
    function = "get_intent";
    args = ("intent_id", cli.show (pos id)) ∷ [];
  }
  request from (reads_balance token_id address) = record {
    -- a blank token id is as none
    contract_id = or_default (or_else (some token_id) none) c.escrow_id;
    source = from;
    network = c.network;
    send = some "no";
    function = "balance";
    args = ("id", address) ∷ [];
  }
