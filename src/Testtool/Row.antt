-- ===== src/Testtool/Row.antt =====
-- The row that a proposal has written.
use Prim.Native.String.{◌++◌ as str_append}
use lumo.Base.{
  ℕ, ◌+◌, ◌≤◌, ◌≡◌, refl, sym, ◌∙◌, true, false, ◌&&◌, Option, some, List, [], ◌∷◌, ◌++◌, String,
  ◌==◌, eq_refl, any, find-append, row_count, arith,
}
use lumo.Models.{Status, PipelineResult}
use lumo.Db.Rows.{Intent, Supplier, DecisionName}
use lumo.Db.Queries.{supplier_by_id, is_proposed}
use lumo.Db.Repo.{Repo}
use lumo.Db.Fresh.{Fresh, Frame}
use lumo.Db.Decide.{new_intent}
use lumo.Db.Decide.Returns.{drafted_in, drafted_in-Fresh, proposal}
use lumo.Pipeline.Findings.{Findings, named_supplier, draft_of}
use lumo.Pipeline.Proposal.{IsProposal}
use lumo.Flow.Paid.Book.{IsBooked, framed-IsBooked}

-- Ids to come that are in no row of the repository, and a supplier that its id names.
pub record IsUnused {E : Type 0} (name : Option String) (s : Repo E) : Type 0 where
  pub fresh : Fresh s
  pub txs : (k : ℕ) → s.minted ≤ k → any (λ q. q.id == s.ids k) s.db.chain_txs ≡ false
  pub payouts : (k : ℕ) → s.minted ≤ k → any (λ q. q.id == s.ids k) s.db.anchor_payouts ≡ false
  pub refs :
      (k : ℕ)
      → s.minted ≤ k
      → any (λ q. q.ref == str_append "MOCK-" (s.ids k)) s.db.anchor_payouts ≡ false
  pub named : (r : Supplier) → named_supplier name s.db ≡ some r → supplier_by_id r.id s.db ≡ some r

row_count-last :
    (id : String) (rs : List Intent) (r : Intent)
    → any (λ q. q.id == id) rs ≡ false
    → (r.id == id) ≡ true
    → is_proposed r ≡ true
    → row_count (λ q. q.id == id && is_proposed q) (rs ++ r ∷ []) ≡ 1
row_count-last id [] r h k p = rw (k, p) refl
row_count-last id (x ∷ rs) r h k p = ground (arith, row_count-last id rs r)

module _ {E : Type 0} (f : Findings) (codes : List String) (name : Option String) (s0 s t : Repo E)
    (r : PipelineResult) (u : IsUnused name s0) (before : Frame s0 s)
    (p : IsProposal f codes s t r) where
  -- the id and the row of the proposal
  abbrev pub new_id_of : String
  new_id_of = s.ids (s.minted + 1)

  abbrev pub new_row : Intent
  new_row = new_intent new_id_of Status.proposed (draft_of f p.pay.supplier.id p.pay.amount) s.now

  abbrev written : Repo E
  written =
      drafted_in
        (proposal DecisionName.proposed codes f.rhash (draft_of f p.pay.supplier.id p.pay.amount))
        Status.proposed (draft_of f p.pay.supplier.id p.pay.amount) s

  unused_id : any (λ q. q.id == new_id_of) s.db.intents ≡ false
  unused_id = p.fresh.intents (s.minted + 1) (omega arith)

  written-IsBooked :
      f.supplier ≡ named_supplier name s0.db → IsBooked new_id_of new_row p.pay.supplier written
  written-IsBooked same = record {
    row_is =
        find-append (λ q. q.id == new_id_of) s.db.intents new_row unused_id
        ∙ rw (eq_refl new_id_of) refl;
    payee_is = rw before.suppliers (u.named p.pay.supplier (sym same ∙ p.pay.supplier_is));
    fresh =
        drafted_in-Fresh
          (proposal DecisionName.proposed codes f.rhash (draft_of f p.pay.supplier.id p.pay.amount))
          Status.proposed (draft_of f p.pay.supplier.id p.pay.amount) s p.fresh;
    txs = λ k h. rw (before.txs, before.ids) (u.txs k (omega (arith, before.minted)));
    payouts = λ k h. rw (before.payouts, before.ids) (u.payouts k (omega (arith, before.minted)));
    refs = λ k h. rw (before.payouts, before.ids) (u.refs k (omega (arith, before.minted)));
  }

  pub new-IsBooked :
      f.supplier ≡ named_supplier name s0.db → IsBooked new_id_of new_row p.pay.supplier t
  new-IsBooked same =
      framed-IsBooked new_id_of p.pay.supplier new_row written t p.frame (written-IsBooked same)

  pub new_single : row_count (λ q. q.id == new_id_of && is_proposed q) t.db.intents ≡ 1
  new_single =
      rw p.frame.intents
        (row_count-last new_id_of s.db.intents new_row unused_id (eq_refl new_id_of) refl)

  pub rules_kept : t.db.policy_rules ≡ s0.db.policy_rules
  rules_kept = p.frame.rules ∙ before.rules
