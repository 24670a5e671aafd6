-- ===== src/Scripts/Enforcement.antt =====
-- scripts/verify_policy_enforcement.py: signed transfers from the policy account that the network
-- has to refuse or authorize. The Stellar SDK with the keys is the parameter `Sdk`; `N` is the
-- world outside. What is printed is not modelled.
pub mod Status
use Prim.Native.String.{◌++◌ as str_append}
use lumo.Base.{
  ℕ, ℤ, pos, negsuc, ◌+ℤ◌, ◌+◌, ◌/◌, Bool, Option, none, some, List, [], ◌∷◌, String, ◌==◌, nat_eq,
  if◌then◌else◌,
}
use lumo.Chain.SmartAccount.{
  Try, give, ◌>>=◌, ◌>>◌, raise_if, Simulation, is_given, first, is_account,
}

pub record Sdk (N Account Tx Entry : Type 0) : Type 0 where
  pub load_account : Try N Account
  -- the transaction that calls `transfer` of the token, from the policy account to the address
  pub build : Account → String → ℤ → Option Tx
  pub simulate_transaction : Tx → Try N Simulation
  pub latest_ledger : Try N ℕ
  pub entry_from_xdr : String → Option Entry
  -- the address of an entry with address credentials
  pub address : Entry → Option String
  -- `authorize_entry` with `owner_signature`
  pub authorize_entry : Entry → ℕ → Option Entry
  pub with_auth : List Entry → Tx → Tx

-- ERRORS, with the text that the code looks for
abbrev pub errors : List (String × String)
errors =
    (", #1)", "FnNotAllowed")
    ∷ (", #2)", "OverCap")
    ∷ (", #3)", "SupplierNotApproved")
    ∷ (", #4)", "BadSignature")
    ∷ (", #5)", "InvalidArgs")
    ∷ (", #6)", "RecipientNotAllowed")
    ∷ []

pub record Case : Type 0 where
  pub label : String
  pub to_addr : String
  pub amount : ℤ
  pub expected : String

-- `cap // 2`
abbrev pub half : ℤ → ℤ
half (pos n) = pos (n / 2)
half (negsuc n) = negsuc (n / 2)

-- CASES
abbrev pub cases : String → String → ℤ → List Case
cases escrow non_escrow cap =
    record {
      label = "wrong recipient, in-cap";
      to_addr = non_escrow;
      amount = half cap;
      expected = "RecipientNotAllowed";
    }
    ∷ record {
      label = "bound escrow, over cap";
      to_addr = escrow;
      amount = cap +ℤ pos 1;
      expected = "OverCap";
    }
    ∷ record {
      label = "bound escrow, in-cap";
      to_addr = escrow;
      amount = pos 100000000;
      expected = "AUTHORIZED";
    }
    ∷ []

-- `contains part text` is `part in text`.
module _ (contains : String → String → Bool) where
  abbrev pub error_name : List (String × String) → String → String
  error_name [] message = str_append "rejected: " message
  error_name ((part, name) ∷ rest) message =
      if contains part message then name else error_name rest message

  abbrev pub verdict_of : Option String → String
  verdict_of none = "AUTHORIZED"
  verdict_of (some message) = if message == "" then "AUTHORIZED" else error_name errors message

  module _ {N Account Tx Entry : Type 0} (sdk : Sdk N Account Tx Entry) (policy : String) where
    -- `_is_policy_entry`
    abbrev pub is_policy_entry : Entry → Bool
    is_policy_entry entry = is_account policy (sdk.address entry)

    abbrev pub signed_entries : ℕ → List String → Try N (List Entry)
    signed_entries until [] = give (some [])
    signed_entries until (xdr ∷ rest) = do
      entry ← give (sdk.entry_from_xdr xdr)
      signed ← give (if is_policy_entry entry then sdk.authorize_entry entry until else some entry)
      others ← signed_entries until rest
      give (some (signed ∷ others))

    -- `SystemExit` and the exceptions of the SDK end the program: none.
    unfoldable pub check_auth_verdict : String → ℤ → Try N String
    check_auth_verdict to_addr amount = do
      account ← sdk.load_account
      tx ← give (sdk.build account to_addr amount)
      recorded ← sdk.simulate_transaction tx
      raise_if (is_given recorded.error)
      auth ← give (first recorded.results)
      sequence ← sdk.latest_ledger
      entries ← signed_entries (sequence + 100) auth
      enforced ← sdk.simulate_transaction (sdk.with_auth entries tx)
      give (some (verdict_of enforced.error))

    -- the loop: how many verdicts are not what was expected
    unfoldable pub failures : List Case → Try N ℕ
    unfolding check_auth_verdict
    failures [] = give (some 0)
    failures (c ∷ cs) = do
      verdict ← check_auth_verdict c.to_addr c.amount
      rest ← failures cs
      give (some (if verdict == c.expected then rest else rest + 1))

    -- the exit status
    unfoldable pub main : String → String → ℤ → Try N ℕ
    unfolding failures
    main escrow non_escrow cap = do
      n ← failures (cases escrow non_escrow cap)
      give (some (if nat_eq n 0 then 0 else 1))
