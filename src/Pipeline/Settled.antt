-- ===== src/Pipeline/Settled.antt =====
-- `settle` returns: what a payment needs of the findings, and what a refusal leaves.
use lumo.Base.{
  ℤ, ◌≡◌, refl, ap, ◌⊎◌, inl, inr, Bool, true, false, Option, none, some, List, [], ◌∷◌, String,
  ◌==◌, eq_refl, any, elem, find, map, ok, Bool-cases, arith,
}
use lumo.Models.{PipelineResult, Decision}
use lumo.Policy.Verdict.{IsPermitted}
use lumo.Db.Rows.{Supplier, Intent, Tables}
use lumo.Db.Repo.{Repo}
use lumo.Db.Fresh.{Fresh}
use lumo.Db.Decide.Returns.{Insertable, record_refusal, record_proposed, record_held}
use lumo.Pipeline.Guards.{Outcome, passed, refused, held}
use lumo.Pipeline.GuardChain.{is_refused}
use lumo.Pipeline.Findings.{Findings, named_supplier, draft_of, plan_of, result_of}
use lumo.Pipeline.Run.{settle}

pub any-map :
    (h : String) (rs : List Intent)
    → elem h (map (λ r. r.request_hash) rs) ≡ false
    → any (λ q. q.request_hash == h) rs ≡ false
any-map h [] e = refl
any-map h (r ∷ rs) e = ground (arith, any-map h rs)

find-any :
    (p : Supplier → Bool) (rs : List Supplier) (r : Supplier)
    → find p rs ≡ some r
    → any (λ q. q.id == r.id) rs ≡ true
find-any p [] r h = ground arith
find-any p (x ∷ rs) r h = elim (Bool-cases (p x)) [
  | inl hit ↦ (let same : x ≡ r = ground arith in rw (ap (λ q. q.id) same, eq_refl r.id) refl)
  | inr miss ↦ ground (arith, find-any p rs r)
]

pub named_supplier-known :
    (o : Option String) (db : Tables) (r : Supplier)
    → named_supplier o db ≡ some r
    → any (λ q. q.id == r.id) db.suppliers ≡ true
named_supplier-known none db r h = ground arith
named_supplier-known (some n) db r h = elim (Bool-cases (n == "")) [
  | inl e ↦ absurd (ground arith)
  | inr e ↦ find-any (λ q. q.name == n) db.suppliers r (ground arith)
]

-- The findings suffice for a payment.
pub record IsPayable (f : Findings) (db : Tables) : Type 0 where
  pub supplier : Supplier
  pub amount : ℤ
  pub supplier_is : f.supplier ≡ some supplier
  pub amount_is : f.amount ≡ some amount
  pub row : Insertable (draft_of f supplier.id amount) db
  pub permitted : IsPermitted f.request f.policy

-- Nothing was proposed.
pub record IsRefusal (r : PipelineResult) : Type 0 where
  pub decision : r.decision ≡ Decision.refused
  pub plan : r.tx_plan ≡ none
  pub id : r.intent_id ≡ none

module _ {E : Type 0} where
  -- `settle` returns; a refusal leaves the intents.
  pub record Settled (f : Findings) (v : Outcome) (codes : List String) (s : Repo E) : Type 0 where
    pub result : PipelineResult
    pub returns : (settle f v codes s).0 ≡ ok result
    pub refusal :
        is_refused v ≡ true → IsRefusal result × ((settle f v codes s).1.db.intents ≡ s.db.intents)

  pub settle-Settled :
      (f : Findings) (v : Outcome) (codes : List String) (s : Repo E)
      → Fresh s
      → (is_refused v ≡ true) ⊎ IsPayable f s.db
      → Settled f v codes s
  unfolding settle
  settle-Settled f refused codes s fr h =
      let (o, e, same) = record_refusal codes f.rhash f.extracted.invoice_ref s fr in
      record {
        result = result_of f Decision.refused codes none none;
        returns = rw e refl;
        refusal = λ _. (record { decision = refl; plan = refl; id = refl }, rw e same);
      }
  settle-Settled f held codes s fr (inl h) = cc
  settle-Settled f passed codes s fr (inl h) = cc
  settle-Settled f held codes s fr (inr p) =
      let o = record_held codes f.rhash (draft_of f p.supplier.id p.amount) s fr p.row in
      record {
        result = result_of f Decision.held codes none o.outcome.intent_id;
        returns = rw (p.supplier_is, p.amount_is, o.returns) refl;
        refusal = λ h. cc;
      }
  settle-Settled f passed codes s fr (inr p) =
      let o = record_proposed codes f.rhash (draft_of f p.supplier.id p.amount) s fr p.row in
      record {
        result =
            result_of f Decision.proposed codes (some (plan_of f p.supplier.address p.amount))
              o.outcome.intent_id;
        returns = rw (p.supplier_is, p.amount_is, o.returns) refl;
        refusal = λ h. cc;
      }
