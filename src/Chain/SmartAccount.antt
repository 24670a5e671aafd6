-- ===== src/Chain/SmartAccount.antt =====
-- lumo/chain/smart_account.py: `create_intent` signed by the owner of the smart account. The
-- Stellar SDK and the `stellar keys` command are the parameter `Rpc`. `N` is the world outside.
pub mod Trace
pub mod Reported
use lumo.Base.{
  ℕ, ◌+◌, ◌≡◌, Bool, true, false, not, ◌||◌, Option, none, some, List, [], ◌∷◌, String, ◌==◌,
  if◌then◌else◌, Result, ok, err, other, submitted_unconfirmed, is_some, Action,
}
use lumo.Models.{TxArgs}
use lumo.Chain.Interface.{InvokeResult}

-- A call that returns, or raises an exception of a library or a `RuntimeError` (none).
abbrev pub Try : Type 0 → Type 0 → Type 0
Try N A = N → Option A × N

module _ {N : Type 0} where
  abbrev pub give : {A : Type 0} → Option A → Try N A
  give o s = (o, s)

  abbrev pub and_then : {A B : Type 0} → Option A × N → (A → Try N B) → Option B × N
  and_then (none, s) f = (none, s)
  and_then (some a, s) f = f a s

  infixl 5 ◌>>=◌ ◌>>◌
  abbrev pub ◌>>=◌ : {A B : Type 0} → Try N A → (A → Try N B) → Try N B
  ◌>>=◌ m f s = and_then (m s) f

  abbrev pub ◌>>◌ : {A B : Type 0} → Try N A → Try N B → Try N B
  m >> k = m >>= λ _. k

  -- `raise RuntimeError(…)` under an if
  abbrev pub raise_if : Bool → Try N (Unit {0})
  raise_if b = give (if b then none else some tt)

-- The answer to `simulate_transaction`: the authorization entries are XDR texts.
pub record Simulation : Type 0 where
  pub error : Option String
  pub results : List (List String)
  pub transaction_data : String
  pub min_resource_fee : ℕ

-- `SendTransactionStatus` and `GetTransactionStatus`
pub data SendStatus : Type 0 where
  error pending duplicate try_again_later : SendStatus

pub data TxStatus : Type 0 where
  success not_found failed : TxStatus

pub record Sent : Type 0 where
  pub status : SendStatus
  pub hash : String

pub record Polled : Type 0 where
  pub status : TxStatus
  pub result_meta_xdr : String

pub record Rpc (N Key Account Tx Entry : Type 0) : Type 0 where
  -- `stellar keys show`, stripped; none if it raises or exits with an error
  pub secret : String → Try N String
  pub from_secret : String → Option Key
  pub public_key : Key → String
  pub load_account : String → Try N Account
  -- the transaction that calls `create_intent` of that contract
  pub build : Account → String → TxArgs → Option Tx
  pub simulate_transaction : Tx → Try N Simulation
  pub latest_ledger : Try N ℕ
  pub entry_from_xdr : String → Option Entry
  -- the address of an entry with address credentials
  pub address : Entry → Option String
  pub authorize_entry : Key → Entry → ℕ → Option Entry
  pub with_auth : List Entry → Tx → Tx
  -- `soroban_data` from its XDR text, and so much more fee
  pub with_resources : String → ℕ → Tx → Option Tx
  pub sign : Key → Tx → Tx
  pub send_transaction : Tx → Try N Sent
  pub poll_transaction : String → Try N Polled
  -- `int` of the return value in the metadata
  pub return_value : String → Option ℕ

pub record SmartAccountClient : Type 0 where
  pub escrow_id : String
  pub smart_account : String
  pub owner_source : String
  pub network : String

-- `if error`
abbrev pub is_given : Option String → Bool
is_given none = false
is_given (some s) = not (s == "")

-- `not recorded.results`
abbrev pub first : List (List String) → Option (List String)
first [] = none
first (r ∷ rs) = some r

abbrev pub is_error : SendStatus → Bool
is_error error = true
is_error _ = false

abbrev pub is_account : String → Option String → Bool
is_account a none = false
is_account a (some b) = b == a

module _ {N Key Account Tx Entry : Type 0} (rpc : Rpc N Key Account Tx Entry)
    (c : SmartAccountClient) where
  -- The entries of the smart account signed by the owner, the others as they are.
  abbrev pub signed_entries : Key → ℕ → List String → Try N (List Entry)
  signed_entries owner until [] = give (some [])
  signed_entries owner until (xdr ∷ rest) = do
    entry ← give (rpc.entry_from_xdr xdr)
    done ← give (
        if is_account c.smart_account (rpc.address entry)
        then rpc.authorize_entry owner entry until
        else some entry)
    others ← signed_entries owner until rest
    give (some (done ∷ others))

  -- `create_intent` as far as the signed transaction
  unfoldable pub prepare : TxArgs → Try N Tx
  prepare a = do
    -- `_RPC` has no other network
    raise_if (not (c.network == "testnet"))
    secret ← rpc.secret c.owner_source
    owner ← give (rpc.from_secret secret)
    account ← rpc.load_account (rpc.public_key owner)
    tx ← give (rpc.build account c.escrow_id a)
    recorded ← rpc.simulate_transaction tx
    raise_if (is_given recorded.error)
    auth ← give (first recorded.results)
    sequence ← rpc.latest_ledger
    entries ← signed_entries owner (sequence + 100) auth
    enforced ← rpc.simulate_transaction (rpc.with_auth entries tx)
    raise_if (is_given enforced.error)
    ready ← give (
        rpc.with_resources enforced.transaction_data enforced.min_resource_fee
          (rpc.with_auth entries tx))
    give (some (rpc.sign owner ready))

  -- the confirmed intent
  abbrev pub read_result : String → Option ℕ → Result InvokeResult
  read_result hash none = err (submitted_unconfirmed (some hash))
  read_result hash (some id) = ok (record { value = some id; tx_hash = some hash })

  abbrev pub confirmed : String → Option Polled → Result InvokeResult
  confirmed hash none = err (submitted_unconfirmed (some hash))
  confirmed hash (some result) = elim result.status [
    | not_found ↦ err (submitted_unconfirmed (some hash))
    | failed ↦ err other
    | success ↦ read_result hash (rpc.return_value result.result_meta_xdr)
  ]

  abbrev pub after_send : Option Sent → Action N InvokeResult
  after_send none s = (err other, s)
  after_send (some resp) s =
      if is_error resp.status
      then (err other, s)
      else (let (result, s') = rpc.poll_transaction resp.hash s in (confirmed resp.hash result, s'))

  abbrev pub submit : Option Tx → Action N InvokeResult
  submit none s = (err other, s)
  submit (some tx) s = let (resp, s') = rpc.send_transaction tx s in after_send resp s'

  unfoldable pub create_intent : TxArgs → Action N InvokeResult
  create_intent a s = let (tx, s') = prepare a s in submit tx s'
