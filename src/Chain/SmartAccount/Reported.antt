-- ===== src/Chain/SmartAccount/Reported.antt =====
-- What `create_intent` of the smart account tells its caller about transactions in flight.
use lumo.Base.{
  ℕ, ◌+◌, ◌≡◌, refl, Bool, not, Option, none, some, List, [], ◌∷◌, String, ◌==◌, if◌then◌else◌,
  Result, Option-cases, Bool-cases, inl, inr, arith, eq_refl,
}
use lumo.Models.{TxArgs}
use lumo.Chain.Interface.{InvokeResult}
use lumo.Chain.SmartAccount.{
  give, raise_if, Polled, Rpc, SmartAccountClient, is_given, first, is_error, is_account,
  signed_entries, prepare, read_result, confirmed, submit, create_intent,
}
use lumo.Chain.SmartAccount.Trace.{
  Note, polled, in_flight_after, in_flight_from, reported, traced_rpc, Keeps, Keeps-give,
  Keeps-untraced, Keeps-bind,
}

module _ {N Key Account Tx Entry : Type 0} (rpc : Rpc N Key Account Tx Entry)
    (c : SmartAccountClient) where
  abbrev rpc' : Rpc (N × List Note) Key Account Tx Entry
  rpc' = traced_rpc rpc

  Keeps-raise_if : (b : Bool) → Keeps {N = N} (raise_if b)
  Keeps-raise_if b = Keeps-give (if b then none else some tt)

  signed_entries-Keeps :
      (owner : Key) (until : ℕ) (xdrs : List String)
      → Keeps (signed_entries rpc' c owner until xdrs)
  signed_entries-Keeps owner until [] = Keeps-give (some [])
  signed_entries-Keeps owner until (xdr ∷ rest) =
      Keeps-bind (give (rpc.entry_from_xdr xdr)) _ (Keeps-give (rpc.entry_from_xdr xdr)) λ entry.
        Keeps-bind
          (give (
            if is_account c.smart_account (rpc.address entry)
            then rpc.authorize_entry owner entry until
            else some entry))
          _ (Keeps-give _)
          λ done.
            Keeps-bind (signed_entries rpc' c owner until rest) _
              (signed_entries-Keeps owner until rest) λ others. Keeps-give (some (done ∷ others))

  prepare-Keeps : (a : TxArgs) → Keeps (prepare rpc' c a)
  unfolding prepare
  prepare-Keeps a = Keeps-bind (raise_if (not (c.network == "testnet"))) _ (Keeps-raise_if _) λ _.
      Keeps-bind (rpc'.secret c.owner_source) _ (Keeps-untraced (rpc.secret c.owner_source))
        λ secret. Keeps-bind (give (rpc.from_secret secret)) _ (Keeps-give _) λ owner.
          Keeps-bind (rpc'.load_account (rpc.public_key owner)) _
            (Keeps-untraced (rpc.load_account _))
            λ account. Keeps-bind (give (rpc.build account c.escrow_id a)) _ (Keeps-give _) λ tx.
              Keeps-bind (rpc'.simulate_transaction tx) _
                (Keeps-untraced (rpc.simulate_transaction tx))
                λ recorded.
                  Keeps-bind (raise_if (is_given recorded.error)) _ (Keeps-raise_if _) λ _.
                    Keeps-bind (give (first recorded.results)) _ (Keeps-give _) λ auth.
                      Keeps-bind rpc'.latest_ledger _ (Keeps-untraced rpc.latest_ledger) λ sequence.
                        Keeps-bind (signed_entries rpc' c owner (sequence + 100) auth) _
                          (signed_entries-Keeps owner (sequence + 100) auth)
                          λ entries.
                            Keeps-bind (rpc'.simulate_transaction (rpc.with_auth entries tx)) _
                              (Keeps-untraced (rpc.simulate_transaction _))
                              λ enforced.
                                Keeps-bind (raise_if (is_given enforced.error)) _ (Keeps-raise_if _)
                                  λ _.
                                    Keeps-bind
                                      (give (
                                        rpc.with_resources enforced.transaction_data
                                          enforced.min_resource_fee (rpc.with_auth entries tx)))
                                      _ (Keeps-give _)
                                      λ ready. Keeps-give (some (rpc.sign owner ready))

  -- the reports and the transactions agree
  record Agrees (r : Result InvokeResult × (N × List Note)) : Type 0 where
    flights : in_flight_from [] r.1.1 ≡ reported r.0

  read_result-reported :
      (hash : String) (o : Option ℕ) → reported (read_result rpc' c hash o) ≡ hash ∷ []
  read_result-reported hash none = refl
  read_result-reported hash (some id) = refl

  confirmed-Agrees :
      (hash : String) (o : Option Polled)
      → in_flight_after (polled hash o) (hash ∷ []) ≡ reported (confirmed rpc' c hash o)
  confirmed-Agrees hash none = refl
  confirmed-Agrees hash (some result) =
      ground
        (arith, eq_refl hash, read_result-reported hash (rpc.return_value result.result_meta_xdr))

  submit-Agrees : (tx : Option Tx) (w : N × List Note) → w.1 ≡ [] → Agrees (submit rpc' c tx w)
  submit-Agrees none w e = record { flights = rw e refl }
  submit-Agrees (some tx) w e = elim (Option-cases (rpc.send_transaction tx w.0).0) [
    | inl raises ↦ rw (raises) (record { flights = rw e refl })
    | inr (resp, answered) ↦ elim (Bool-cases (is_error resp.status)) [
      | inl refused ↦ rw (answered, refused) (record { flights = rw (e, refused) refl })
      | inr taken ↦
          rw (answered, taken) (record { flights = rw (e, taken) (confirmed-Agrees resp.hash _) })
    ]
  ]

  pub create_intent-reported :
      (a : TxArgs) (s : N)
      → in_flight_from [] (create_intent rpc' c a (s, [])).1.1
        ≡ reported (create_intent rpc' c a (s, [])).0
  unfolding create_intent
  create_intent-reported a s =
      (submit-Agrees (prepare rpc' c a (s, [])).0 (prepare rpc' c a (s, [])).1
        ((prepare-Keeps a).at_state (s, []))).flights
