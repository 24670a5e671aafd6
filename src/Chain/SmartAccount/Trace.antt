-- ===== src/Chain/SmartAccount/Trace.antt =====
-- The calls of the network on record, and what is in flight after them.
use lumo.Base.{
  ◌≡◌, refl, ◌∙◌, not, Option, none, some, List, [], ◌∷◌, ◌++◌, String, ◌==◌, if◌then◌else◌, Result,
  ok, err, submitted_unconfirmed, select,
}
use lumo.Chain.Interface.{InvokeResult}
use lumo.Chain.SmartAccount.{
  Try, give, and_then, ◌>>=◌, Sent, Polled, success, not_found, failed, Rpc, is_error,
}

-- A call of `send_transaction` and its answer, or one of `poll_transaction`.
pub data Note : Type 0 where
  sent : Option Sent → Note
  polled : String → Option Polled → Note

abbrev pub in_flight_after : Note → List String → List String
in_flight_after (sent none) hs = hs
in_flight_after (sent (some resp)) hs = if is_error resp.status then hs else hs ++ resp.hash ∷ []
in_flight_after (polled hash none) hs = hs
in_flight_after (polled hash (some result)) hs = elim result.status [
  | success ↦ hs
  | not_found ↦ hs
  | failed ↦ select (λ h. not (h == hash)) hs
]

-- The transactions that the network has taken and that are not known to have failed.
abbrev pub in_flight_from : List String → List Note → List String
in_flight_from hs [] = hs
in_flight_from hs (n ∷ ns) = in_flight_from (in_flight_after n hs) ns

abbrev pub hash_list : Option String → List String
hash_list none = []
hash_list (some h) = h ∷ []

-- The transactions that the caller learns of.
abbrev pub reported : Result InvokeResult → List String
reported (ok r) = hash_list r.tx_hash
reported (err (submitted_unconfirmed h)) = hash_list h
reported (err _) = []

module _ {N : Type 0} where
  abbrev pub untraced : {A : Type 0} → Try N A → Try (N × List Note) A
  untraced m w = ((m w.0).0, ((m w.0).1, w.1))

  -- The call neither sends nor polls.
  pub record Keeps {A : Type 0} (m : Try (N × List Note) A) : Type 0 where
    pub at_state : (w : N × List Note) → (m w).1.1 ≡ w.1

  pub Keeps-give : {A : Type 0} (o : Option A) → Keeps (give o)
  Keeps-give o = record { at_state = λ w. refl }

  pub Keeps-untraced : {A : Type 0} (m : Try N A) → Keeps (untraced m)
  Keeps-untraced m = record { at_state = λ w. refl }

  pub Keeps-bind :
      {A B : Type 0} (m : Try (N × List Note) A) (f : A → Try (N × List Note) B)
      → Keeps m
      → ((a : A) → Keeps (f a))
      → Keeps (m >>= f)
  Keeps-bind {A = A} {B = B} m f km kf = record { at_state = λ w. step w (m w) (km.at_state w) }
    where
      step :
          (w : N × List Note) (r : Option A × (N × List Note))
          → r.1.1 ≡ w.1
          → (and_then r f).1.1 ≡ w.1
      step w (none, v) h = h
      step w (some a, v) h = (kf a).at_state v ∙ h

module _ {N Key Account Tx Entry : Type 0} where
  abbrev pub traced_rpc : Rpc N Key Account Tx Entry → Rpc (N × List Note) Key Account Tx Entry
  traced_rpc rpc = record {
    secret = λ k. untraced (rpc.secret k);
    from_secret = rpc.from_secret;
    public_key = rpc.public_key;
    load_account = λ k. untraced (rpc.load_account k);
    build = rpc.build;
    simulate_transaction = λ tx. untraced (rpc.simulate_transaction tx);
    latest_ledger = untraced rpc.latest_ledger;
    entry_from_xdr = rpc.entry_from_xdr;
    address = rpc.address;
    authorize_entry = rpc.authorize_entry;
    with_auth = rpc.with_auth;
    with_resources = rpc.with_resources;
    sign = rpc.sign;
    send_transaction = λ tx w. (
      (rpc.send_transaction tx w.0).0,
      ((rpc.send_transaction tx w.0).1, w.1 ++ sent (rpc.send_transaction tx w.0).0 ∷ []),
    );
    poll_transaction = λ hash w. (
      (rpc.poll_transaction hash w.0).0,
      (
        (rpc.poll_transaction hash w.0).1,
        w.1 ++ polled hash (rpc.poll_transaction hash w.0).0 ∷ [],
      ),
    );
    return_value = rpc.return_value;
  }
