-- ===== src/Flow/Paid/Confirms.antt =====
-- `confirm` of lumo/flow.py over the in-process chain: the escrow that was created is recorded.
use lumo.Base.{
  ℕ, ◌≡◌, refl, not, Option, some, String, ◌==◌, eq_refl, Action, pure, raise_if, or_raise, ◌>>=◌,
  ◌>>◌, chain_error,
}
use lumo.Base.Ends.{Ends, Ends-result, Ends-bind, Ends-same}
use lumo.Models.{Status}
use lumo.Chain.{ChainStatus, InvokeResult, variant_of}
use lumo.Chain.Mock
use lumo.Chain.Mock.{MockChain, MockIntent, mock_adapter, view, intent_at}
use lumo.Db.Rows.{Intent, Supplier}
use lumo.Db.Queries.{set_status}
use lumo.Db.Repo.{Repo, add_chain_tx, set_chain_intent}
use lumo.Db.Decide.{record_decision}
use lumo.Flow.Steps.{World, on_repo, on_chain, lift}
use lumo.Flow.Execute.{confirm, funding}
use lumo.Flow.Paid.Book.{IsBooked, with_chain_id, add_chain_tx-IsBooked, set_chain_intent-IsBooked}
use lumo.Flow.Paid.Record.{funding-IsBooked}

-- The row of the intent, and the chain.
pub record IsAt {E : Type 0} (id : String) (payee : Supplier) (row : Intent) (c : MockChain)
    (w : World E MockChain) : Type 0 where
  pub booked : IsBooked id row payee w.repo
  pub chain_is : w.chain ≡ c

module _ {E : Type 0} (id : String) (payee : Supplier) where
  pub on_repo-IsAt :
      {A : Type 0} (row : Intent) (c : MockChain) (m : Action (Repo E) A) (w : World E MockChain)
      (a : A)
      → Ends (IsBooked id row payee) m w.repo a
      → w.chain ≡ c
      → Ends (IsAt id payee row c) (on_repo m) w a
  on_repo-IsAt row c m w a l e = record {
    returns = l.returns;
    after = record { booked = l.after; chain_is = e };
  }

  fund-IsAt :
      (row old : Intent) (n : ℕ) (result : InvokeResult) (c : MockChain) (w : World E MockChain)
      → IsAt id payee row c w
      → Ends
          (IsAt id payee (set_status Status.escrowed row) c)
          (on_repo (record_decision (funding id old result)) >>= λ _. pure (some n))
          w
          (some n)
  fund-IsAt row old n result c w p =
      let (o, l) = funding-IsBooked id payee row old result w.repo p.booked in
      let next = set_status Status.escrowed row in
      Ends-bind (on_repo (record_decision (funding id old result))) _ w o (some n)
        (on_repo-IsAt next c _ w o l p.chain_is)
        λ q. Ends-result (IsAt id payee next c) _ (some n) q

  module _ (tx_hash_of : String → ℕ → String) (lower : String → String) where
    -- the rest of `confirm` from the chain's answer on
    abbrev examined :
        Intent → ℕ → InvokeResult → Option ChainStatus → Action (World E MockChain) (Option ℕ)
    examined old n result status = do
      chain ← or_raise status chain_error
      raise_if (not (lower chain.request_hash == lower old.request_hash)) chain_error
      variant ← lift (variant_of chain.status)
      raise_if (not (variant == "Funded")) chain_error
      on_repo (record_decision (funding id old result))
      pure (some n)

    examined-passes :
        (old : Intent) (n : ℕ) (result : InvokeResult) (i : MockIntent) (w : World E MockChain)
        → i.status ≡ Mock.State.funded
        → i.request_hash ≡ old.request_hash
        → examined old n result (some (view i)) w
          ≡ (on_repo (record_decision (funding id old result)) >>= λ _. pure (some n)) w
    unfolding variant_of
    examined-passes old n result i w f g = rw (g, f, eq_refl) refl

    get_status-IsAt :
        (row : Intent) (n : ℕ) (i : MockIntent) (c : MockChain) (w : World E MockChain)
        → intent_at n c.intents ≡ some i
        → IsAt id payee row c w
        → Ends
            (IsAt id payee row c)
            (on_chain ((mock_adapter tx_hash_of).get_status n))
            w
            (some (view i))
    unfolding Mock.get_status
    get_status-IsAt row n i c w h p = record { returns = rw (p.chain_is, h) refl; after = p }

    pub confirm-IsAt :
        (row old : Intent) (n : ℕ) (hash : String) (i : MockIntent) (c : MockChain)
        (w : World E MockChain)
        → intent_at n c.intents ≡ some i
        → i.status ≡ Mock.State.funded
        → i.request_hash ≡ old.request_hash
        → IsAt id payee row c w
        → Ends
            (IsAt id payee (set_status Status.escrowed (with_chain_id n row)) c)
            (confirm
              (mock_adapter tx_hash_of)
              lower
              id
              old
              (record { value = some n; tx_hash = some hash }))
            w
            (some n)
    unfolding confirm
    confirm-IsAt row old n hash i c w h f g p =
        let client = mock_adapter tx_hash_of in
        let result : InvokeResult = record { value = some n; tx_hash = some hash } in
        let after = with_chain_id n row in
        let note : Action (World E MockChain) (Unit {0}) =
          on_repo (add_chain_tx id "create_intent" (some hash)) in
        let write : Action (World E MockChain) (Unit {0}) = on_repo (set_chain_intent id n) in
        let read : Action (World E MockChain) (Option ChainStatus) =
          on_chain (client.get_status n) in
        let rest = examined old n result in
        Ends-same _ (note >>= λ _. write >>= λ _. read >>= rest) w (some n) refl (
          Ends-bind note (λ _. write >>= λ _. read >>= rest) w tt (some n)
            (on_repo-IsAt row c (add_chain_tx id "create_intent" (some hash)) w tt
              (add_chain_tx-IsBooked id payee row "create_intent" (some hash) w.repo p.booked)
              p.chain_is)
            λ p2.
              Ends-bind write (λ _. read >>= rest) (note w).1 tt (some n)
                (on_repo-IsAt after c (set_chain_intent id n) (note w).1 tt
                  (set_chain_intent-IsBooked id payee row n (note w).1.repo p2.booked) p2.chain_is)
                λ p3.
                  Ends-bind read rest (write (note w).1).1 (some (view i)) (some n)
                    (get_status-IsAt after n i c (write (note w).1).1 h p3)
                    λ p4.
                      Ends-same (rest (some (view i)))
                        (on_repo (record_decision (funding id old result)) >>= λ _. pure (some n))
                        (read (write (note w).1).1).1 (some n)
                        (examined-passes old n result i _ f g)
                        (fund-IsAt after old n result c _ p4))
