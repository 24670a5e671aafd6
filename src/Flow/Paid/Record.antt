-- ===== src/Flow/Paid/Record.antt =====
-- The decision that confirms an escrow, and the cash-out, of an intent on its way.
use Prim.Native.String.{◌++◌ as str_append}
use lumo.Base.{
  ◌+◌, ◌≡◌, refl, ap, ◌∙◌, true, some, [], ◌∷◌, ◌++◌, String, ◌==◌, any, ok, update, arith,
}
use lumo.Base.Ends.{Ends}
use lumo.Models.{Status}
use lumo.Chain.{InvokeResult}
use lumo.Anchor.{Receipt, mock_cash_out}
use lumo.Db.Rows.{Intent, Supplier, insert_decision, insert_anchor_payout}
use lumo.Db.Queries.{set_status}
use lumo.Db.Repo.{Repo, add_anchor_payout}
use lumo.Db.Fresh.{any-append, next_differs}
use lumo.Db.Decide.{Decision, DecisionOutcome, record_decision, decision_row}
use lumo.Db.Decide.Returns.{any-or, announce, announce-Lives}
use lumo.Flow.Execute.{funding}
use lumo.Flow.Paid.Book.{IsBooked, updated-IsBooked, framed-IsBooked, at_id, any-update, any-find}

module _ {E : Type 0} (id : String) (payee : Supplier) where
  -- the repository when the decision is written
  abbrev approved_in : Decision → Repo E → Repo E
  approved_in d s = record s {
    minted = s.minted + 1;
    db = record s.db {
      intents = update (λ r. r.id == id) (set_status Status.escrowed) s.db.intents;
      decisions = s.db.decisions ++ decision_row d (s.ids s.minted) (some id) ∷ [];
    };
  }

  approved_in-IsBooked :
      (d : Decision) (row : Intent) (s : Repo E)
      → IsBooked id row payee s
      → IsBooked id (set_status Status.escrowed row) payee (approved_in d s)
  approved_in-IsBooked d row s b =
      let u =
        updated-IsBooked id payee row (λ r. r.id == id) (set_status Status.escrowed) s (λ r. refl)
          refl (at_id id payee row s b) b in
      record {
        row_is = u.row_is;
        payee_is = u.payee_is;
        fresh = record {
          distinct = u.fresh.distinct;
          decisions = λ k h.
              any-append (λ q. q.id == s.ids k) s.db.decisions
                (decision_row d (s.ids s.minted) (some id)) (b.fresh.decisions k (omega arith))
                (next_differs s k b.fresh h);
          intents = λ k h. u.fresh.intents k (omega arith);
          events = λ k h. u.fresh.events k (omega arith);
          quiet = u.fresh.quiet;
        };
        txs = λ k h. b.txs k (omega arith);
        payouts = λ k h. b.payouts k (omega arith);
        refs = λ k h. b.refs k (omega arith);
      }

  pub funding-IsBooked :
      (row old : Intent) (result : InvokeResult) (s : Repo E)
      → IsBooked id row payee s
      → (o : DecisionOutcome) × Ends
          (IsBooked id (set_status Status.escrowed row) payee)
          (record_decision (funding id old result))
          s
          o
  unfolding record_decision insert_decision
  funding-IsBooked row old result s b =
      let d = funding id old result in
      let there : any (λ r. r.id == id)
            (update (λ r. r.id == id) (set_status Status.escrowed) s.db.intents)
          ≡ true =
        any-update id (λ r. r.id == id) (set_status Status.escrowed) (λ r. refl) s.db.intents
        ∙ any-find (λ r. r.id == id) s.db.intents row b.row_is in
      let e : record_decision d s ≡ announce d (s.ids s.minted) (some id) (approved_in d s) =
        rw (b.fresh.decisions s.minted (omega arith), there) refl in
      let booked = approved_in-IsBooked d row s b in
      let l = announce-Lives d (s.ids s.minted) (some id) (approved_in d s) booked.fresh in
      (
        _,
        record {
          returns = ap (λ c. c.0) e ∙ l.returns;
          after = rw e (
              framed-IsBooked id payee (set_status Status.escrowed row) (approved_in d s)
                (announce d (s.ids s.minted) (some id) (approved_in d s)).1 l.frame booked);
        },
      )

  pub mock_cash_out-returns :
      (row : Intent) (s : Repo E)
      → row.status ≡ Status.released
      → IsBooked id row payee s
      → (o : Receipt) × ((mock_cash_out id s).0 ≡ ok o)
        × ((mock_cash_out id s).1.db.intents ≡ s.db.intents)
  unfolding mock_cash_out add_anchor_payout insert_anchor_payout
  mock_cash_out-returns row s released b =
      let ref = str_append "MOCK-" (s.ids s.minted) in
      let new = s.ids (s.minted + 1) in
      let cashed : ((mock_cash_out id s).0 ≡ ok (record { id = ref; to = payee.address }))
          × ((mock_cash_out id s).1.db.intents ≡ s.db.intents) =
        rw
          (
            b.row_is,
            released,
            b.payee_is,
            any-or (λ q. q.id == new) (λ q. q.ref == ref) s.db.anchor_payouts
                (b.payouts (s.minted + 1) (omega arith)) (b.refs s.minted (omega arith)),
            any-find (λ r. r.id == id) s.db.intents row b.row_is,
          )
          (refl, refl) in
      (record { id = ref; to = payee.address }, cashed.0, cashed.1)
