-- ===== src/Chain/Interface.antt =====
-- lumo/chain/adapter.py, the protocol that every chain adapter offers, and the parts of
-- lumo/chain/soroban_client.py that its callers rely on. `C` is the adapter's own state, the
-- ledger included. Chain intent ids are the contract's unsigned numbers.
use lumo.Base.{ℕ, ℤ, Option, List, [], ◌∷◌, String, Action, Result, ok, err, chain_error}
use lumo.Models.{TxArgs}

-- ATTEST_KINDS of lumo/sdk.py; the command line and the CHECK constraint admit no other kind.
pub data Kind : Type 0 where
  shipped failed : Kind

pub record InvokeResult : Type 0 where
  pub value : Option ℕ
  pub tx_hash : Option String

-- An enum of the contract as JSON: a plain text, or an object by its keys.
pub data EnumValue : Type 0 where
  text : String → EnumValue
  object : List String → EnumValue
  unrecognized : EnumValue

pub record ChainStatus : Type 0 where
  pub status : EnumValue
  pub request_hash : String
  pub sme : String
  pub supplier : String
  pub token : String
  pub amount : ℤ
  pub deadline : ℤ

-- `SorobanError` is a `ChainError`.
unfoldable pub variant_of : EnumValue → Result String
variant_of (text s) = ok s
variant_of (object (k ∷ [])) = ok k
variant_of (object _) = err chain_error
variant_of unrecognized = err chain_error

pub record ChainAdapter (C : Type 0) : Type 0 where
  pub create_intent : TxArgs → String → Action C InvokeResult
  pub attest : ℕ → String → Kind → String → Action C InvokeResult
  pub release : ℕ → String → Action C InvokeResult
  pub refund : ℕ → String → Action C InvokeResult
  pub get_status : ℕ → Action C (Option ChainStatus)
