-- ===== src/Chain/Mock.antt =====
-- lumo/chain/mock_chain.py: the in-process chain with balances and escrowed intents.
-- `intents` is the dict of intents by their ids 1, 2, …: the id is the place in the list.
pub mod Ledger
pub mod Lifecycle
pub mod Solvency
pub mod Covered
pub mod Vault
pub mod Payout
pub mod Supply
pub mod Machine
pub mod Moves
pub mod Intents
pub use Ledger.*
unfoldable pub use Ledger.{supply}
use mathlib.Core.Option
use lumo.Base.{
  ℕ, zero, suc, ℤ, pos, ◌+◌, ◌+ℤ◌, ◌-ℤ◌, ltb_ℤ, Bool, true, false, not, ◌&&◌, Option, none, some,
  List, [], ◌∷◌, ◌++◌, String, ◌==◌, if◌then◌else◌, length, Action, Result, ok, err, pure, raise,
  gets, or_raise, ◌>>=◌, ◌>>◌, raise_if, modify, chain_error, key_error, bind_result,
}
use lumo.Models.{TxArgs}
use lumo.Chain.Interface.{Kind, shipped, failed, InvokeResult, text, ChainStatus, ChainAdapter}

pub data State : Type 0 where
  funded released refunded : State

pub record MockIntent : Type 0 where
  pub sme : String
  pub supplier : String
  pub token : String
  pub amount : ℤ
  pub request_hash : String
  pub deadline : ℤ
  pub status : State
  pub attestation : Option Kind

pub record MockChain : Type 0 where
  pub now : ℤ
  pub intents : List MockIntent
  pub balances : Balances
  pub tx_count : ℕ

abbrev pub vault : String
vault = "MOCK-ESCROW-VAULT"

abbrev pub is_funded : State → Bool
is_funded State.funded = true
is_funded _ = false

-- `self.intents.get(id)`
abbrev pub intent_at : ℕ → List MockIntent → Option MockIntent
intent_at zero is = none
intent_at (suc n) [] = none
intent_at (suc zero) (i ∷ is) = some i
intent_at (suc (suc n)) (i ∷ is) = intent_at (suc n) is

-- a write to the fields of the intent that `self.intents[id]` is
abbrev pub write_at : ℕ → MockIntent → List MockIntent → List MockIntent
write_at zero j is = is
write_at (suc n) j [] = []
write_at (suc zero) j (i ∷ is) = j ∷ is
write_at (suc (suc n)) j (i ∷ is) = i ∷ write_at (suc n) j is

abbrev pub balance_of : String → String → MockChain → ℤ
balance_of token address s = balance (token, address) s.balances

unfoldable pub fund : String → String → ℤ → Action MockChain (Unit {0})
fund token address amount = modify λ s. record s {
  balances = put (token, address) (balance_of token address s +ℤ amount) s.balances;
}

unfoldable pub move : String → String → String → ℤ → Action MockChain (Unit {0})
move token src dst amount = do
  held ← gets (balance_of token src)
  raise_if (ltb_ℤ held amount) chain_error
  old ← (λ s. or_raise (entry (token, src) s.balances) key_error s)
  modify (λ s. record s { balances = put (token, src) (old -ℤ amount) s.balances })
  modify λ s. record s { balances = put (token, dst) (balance_of token dst s +ℤ amount) s.balances }

-- `_funded`
unfoldable pub funded_intent : ℕ → Action MockChain MockIntent
funded_intent id = do
  intent ← (λ s. or_raise (intent_at id s.intents) chain_error s)
  raise_if (not (is_funded intent.status)) chain_error
  pure intent

abbrev pub is_shipped : Option Kind → Bool
is_shipped (some shipped) = true
is_shipped _ = false

abbrev pub is_failed : Option Kind → Bool
is_failed (some failed) = true
is_failed _ = false

abbrev pub attest_action : Kind → String
attest_action shipped = "attest_Shipped"
attest_action failed = "attest_Failed"

abbrev pub write_intent : ℕ → MockIntent → Action MockChain (Unit {0})
write_intent id i = modify (λ s. record s { intents = write_at id i s.intents })

abbrev pub first_attestation : Option Kind → Kind → Option Kind
first_attestation none kind = some kind
first_attestation (some k) kind = some k

abbrev pub state_name : State → String
state_name State.funded = "Funded"
state_name State.released = "Released"
state_name State.refunded = "Refunded"

abbrev pub view : MockIntent → ChainStatus
view i = record {
  status = text (state_name i.status);
  request_hash = i.request_hash;
  sme = i.sme;
  supplier = i.supplier;
  token = i.token;
  amount = i.amount;
  deadline = i.deadline;
}

-- `tx_hash_of action n` is the SHA-256 digest of the text `action:n`.
module _ (tx_hash_of : String → ℕ → String) where
  unfoldable pub next_tx : String → Action MockChain String
  next_tx action s =
      (ok (tx_hash_of action (s.tx_count + 1)), record s { tx_count = s.tx_count + 1 })

  unfoldable pub create_intent : TxArgs → String → Action MockChain InvokeResult
  unfolding next_tx
  create_intent a source = do
    move a.token a.sme vault a.amount
    chain_intent_id ← gets (λ s. length s.intents + 1)
    modify λ s. record s {
      intents =
          s.intents
          ++ record {
            sme = a.sme;
            supplier = a.supplier;
            token = a.token;
            amount = a.amount;
            request_hash = a.request_hash;
            deadline = a.deadline;
            status = State.funded;
            attestation = none;
          }
            ∷ [];
    }
    hash ← next_tx "create_intent"
    pure (record { value = some chain_intent_id; tx_hash = some hash })

  abbrev pub settled : String → Action MockChain InvokeResult
  unfolding next_tx
  settled action = do hash ← next_tx action; pure (record { value = none; tx_hash = some hash })

  unfoldable pub attest : ℕ → String → Kind → String → Action MockChain InvokeResult
  unfolding funded_intent next_tx
  attest id oracle kind source = do
    intent ← funded_intent id
    write_intent id (record intent { attestation = first_attestation intent.attestation kind })
    settled (attest_action kind)

  unfoldable pub release : ℕ → String → Action MockChain InvokeResult
  unfolding funded_intent next_tx
  release id source = do
    intent ← funded_intent id
    raise_if (not (is_shipped intent.attestation)) chain_error
    move intent.token vault intent.supplier intent.amount
    write_intent id (record intent { status = State.released })
    settled "release"

  unfoldable pub refund : ℕ → String → Action MockChain InvokeResult
  unfolding funded_intent next_tx
  refund id source = do
    intent ← funded_intent id
    raise_if (is_shipped intent.attestation) chain_error
    now ← gets (λ s. s.now)
    raise_if (not (is_failed intent.attestation) && ltb_ℤ now intent.deadline) chain_error
    move intent.token vault intent.sme intent.amount
    write_intent id (record intent { status = State.refunded })
    settled "refund"

  unfoldable pub get_status : ℕ → Action MockChain (Option ChainStatus)
  get_status id = gets (λ s. Option.map view (intent_at id s.intents))

  abbrev pub mock_adapter : ChainAdapter MockChain
  mock_adapter = record {
    create_intent = create_intent;
    attest = attest;
    release = release;
    refund = refund;
    get_status = get_status;
  }
