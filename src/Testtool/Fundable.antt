-- ===== src/Testtool/Fundable.antt =====
-- A proposal can be paid if the account of the tool covers the cap.
use lumo.Base.{
  ℤ, pos, ◌≤ℤ◌, ◌<ℤ◌, ◌≡◌, ◌≢◌, refl, ◌∙◌, subst, Option, none, some, List, String, arith,
}
use lumo.Models.{ExtractedInvoice, PipelineResult}
use lumo.Config.{Config}
use lumo.Injection.{Text}
use lumo.Chain.Mock.{MockChain, balance_of, vault}
use lumo.Chain.Mock.Solvency.{IsSolvent}
use lumo.Db.Rows.{Intent, Supplier, Tables}
use lumo.Db.Repo.{Repo}
use lumo.Db.Fresh.{Frame}
use lumo.Pipeline.Findings.{Services, Findings, named_supplier}
use lumo.Pipeline.Total.{Readable, it, guarded}
use lumo.Pipeline.Proposal.{IsProposal}
use lumo.Flow.Steps.{World}
use lumo.Flow.Execute.{paying_account}
use lumo.Flow.Paid.{IsFundable}
use lumo.Flow.Paid.Escrow.{IsPossible}
use lumo.Flow.Paid.Executes.{args_of}
use lumo.Testtool.Row.{IsUnused, new_id_of, new_row, new-IsBooked, new_single, rules_kept}

some_same : {A : Type 0} (o : Option A) (a b : A) → o ≡ some a → o ≡ some b → a ≡ b
some_same o a b h k = ground arith

leq_trans : (a b c : ℤ) → a ≤ℤ b → b ≤ℤ c → a ≤ℤ c
leq_trans a b c h k = omega arith

kept_account :
    (config : Config) (s t : Tables)
    → t.policy_rules ≡ s.policy_rules
    → paying_account config t ≡ paying_account config s
kept_account config s t e = rw e refl

-- The tool can pay any amount within the cap from the account, to any supplier of that name.
pub record IsProvided {E D : Type 0} (sv : Services D) (config : Config) (name : Option String)
    (sme : String) (w : World E MockChain) (a : Readable sv w.repo.db) : Type 0 where
  pub unused : IsUnused name w.repo
  pub account : paying_account config w.repo.db ≡ some sme
  pub payer : sme ≢ vault
  pub payee :
      (r : Supplier)
      → named_supplier name w.repo.db ≡ some r
      → (r.address ≢ vault) × (r.address ≢ sme)
  pub solvent : IsSolvent w.chain
  pub covered : a.cap_per_tx ≤ℤ balance_of a.token sme w.chain

module _ {E D : Type 0} (sv : Services D) (text : Text) (config : Config) (e : ExtractedInvoice)
    (sme : String) (w : World E MockChain) (a : Readable sv w.repo.db)
    (pv : IsProvided sv config e.supplier_name sme w a) (codes : List String) (t : Repo E)
    (r : PipelineResult)
    (before : Frame w.repo (guarded sv text config none none e w.repo a w.repo).1)
    (p : IsProposal
      (it sv text config none none e w.repo a)
      codes
      (guarded sv text config none none e w.repo a w.repo).1
      t
      r) where
  abbrev f : Findings
  f = it sv text config none none e w.repo a

  abbrev s : Repo E
  s = (guarded sv text config none none e w.repo a w.repo).1

  abbrev pub id : String
  id = new_id_of f codes e.supplier_name w.repo s t r pv.unused before p

  abbrev pub row : Intent
  row = new_row f codes e.supplier_name w.repo s t r pv.unused before p

  possible : IsPossible (args_of sme p.pay.supplier row) w.chain
  possible =
      let same =
        some_same f.amount p.pay.permitted.amount p.pay.amount p.pay.permitted.has_amount
          p.pay.amount_is in
      let (shut, apart) = pv.payee p.pay.supplier p.pay.supplier_is in
      record {
        positive = subst (λ x. pos 0 <ℤ x) same p.pay.permitted.positive;
        payer = pv.payer;
        payee = shut;
        apart = apart;
        affordable =
            leq_trans p.pay.amount a.cap_per_tx (balance_of a.token sme w.chain)
              (subst (λ x. x ≤ℤ a.cap_per_tx) same p.pay.permitted.within_tx) pv.covered;
      }

  pub fundable : IsFundable id row p.pay.supplier sme config (record w { repo = t })
  fundable = record {
    booked = new-IsBooked f codes e.supplier_name w.repo s t r pv.unused before p refl;
    proposed = refl;
    single = new_single f codes e.supplier_name w.repo s t r pv.unused before p;
    account =
        kept_account config w.repo.db t.db
          (rules_kept f codes e.supplier_name w.repo s t r pv.unused before p)
        ∙ pv.account;
    solvent = pv.solvent;
    possible = possible;
  }
