-- ===== src/Pipeline/Proposal.antt =====
-- What a proposal of `run` leaves in the repository.
use lumo.Base.{
  ◌≢◌, ◌+◌, ◌≡◌, refl, ap, ◌∙◌, ◌⊎◌, inl, inr, true, Option, none, some, List, String, ok, subst,
  sym,
}
use lumo.Models.{Status, ExtractedInvoice, PipelineResult, Decision}
use lumo.Config.{Config}
use lumo.Injection.{Text}
use lumo.Db.Rows.{DecisionName}
use lumo.Db.Repo.{Repo}
use lumo.Db.Fresh.{Fresh, Frame}
use lumo.Db.Decide.Returns.{drafted_in, proposal, record_proposed, record_held}
use lumo.Pipeline.Guards.{Outcome, passed, refused, held, ComputeReceipt}
use lumo.Pipeline.GuardChain.{is_refused}
use lumo.Pipeline.Findings.{Services, Findings, draft_of, plan_of, result_of}
use lumo.Pipeline.Run.{settle, run, propose_guards}
use lumo.Pipeline.Answers.{run_guards-Answer}
use lumo.Pipeline.Settled.{IsPayable, settle-Settled}
use lumo.Pipeline.Total.{Readable, it, it-Asks, guarded, payable, run-settle}

-- The result proposes a payment that the findings allow, and its row is written in `s`.
pub record IsProposal {E : Type 0} (f : Findings) (codes : List String) (s t : Repo E)
    (r : PipelineResult) : Type 0 where
  pub pay : IsPayable f s.db
  pub fresh : Fresh s
  pub decision : r.decision ≡ Decision.proposed
  pub id_is : r.intent_id ≡ some (s.ids (s.minted + 1))
  pub frame :
      Frame
        (drafted_in
          (proposal DecisionName.proposed codes f.rhash (draft_of f pay.supplier.id pay.amount))
          Status.proposed
          (draft_of f pay.supplier.id pay.amount)
          s)
        t

differ : {d : Decision} → d ≡ Decision.refused → d ≢ Decision.proposed
differ h e = cc

module _ {E : Type 0} where
  settle-proposes :
      (f : Findings) (codes : List String) (s : Repo E)
      → Fresh s
      → IsPayable f s.db
      → (r : PipelineResult) × ((settle f passed codes s).0 ≡ ok r)
        × IsProposal f codes s (settle f passed codes s).1 r
  unfolding settle
  settle-proposes f codes s fr p =
      let draft = draft_of f p.supplier.id p.amount in
      let o = record_proposed codes f.rhash draft s fr p.row in
      (
        result_of f Decision.proposed codes (some (plan_of f p.supplier.address p.amount))
            o.outcome.intent_id,
        rw (p.supplier_is, p.amount_is, o.returns) refl,
        record {
          pay = p;
          fresh = fr;
          decision = refl;
          id_is = o.id_is;
          frame = rw (p.supplier_is, p.amount_is, o.returns) o.frame;
        },
      )

  -- It is not proposed, or it is and the row is written.
  abbrev pub Ended : Findings → List String → Repo E → Repo E → PipelineResult → Type 0
  Ended f codes s t r = (r.decision ≢ Decision.proposed) ⊎ IsProposal f codes s t r

  settle-holds :
      (f : Findings) (codes : List String) (s : Repo E)
      → Fresh s
      → IsPayable f s.db
      → (r : PipelineResult) × ((settle f held codes s).0 ≡ ok r)
        × Ended f codes s (settle f held codes s).1 r
  unfolding settle
  settle-holds f codes s fr p =
      let o = record_held codes f.rhash (draft_of f p.supplier.id p.amount) s fr p.row in
      (
        result_of f Decision.held codes none o.outcome.intent_id,
        rw (p.supplier_is, p.amount_is, o.returns) refl,
        inl (λ e. cc),
      )

  settle-Ended :
      (f : Findings) (v : Outcome) (codes : List String) (s : Repo E)
      → Fresh s
      → (is_refused v ≡ true) ⊎ IsPayable f s.db
      → (r : PipelineResult) × ((settle f v codes s).0 ≡ ok r)
        × Ended f codes s (settle f v codes s).1 r
  settle-Ended f refused codes s fr h =
      let d = settle-Settled f refused codes s fr h in
      (d.result, d.returns, inl (λ e. differ ((d.refusal refl).0.decision) e))
  settle-Ended f passed codes s fr (inl h) = cc
  settle-Ended f held codes s fr (inl h) = cc
  settle-Ended f held codes s fr (inr p) = settle-holds f codes s fr p
  settle-Ended f passed codes s fr (inr p) =
      let (r, e, q) = settle-proposes f codes s fr p in (r, e, inr q)

module _ {E D : Type 0} (sv : Services D) where
  -- what `run` ends with, whatever the model extracts
  pub run-Ended :
      (text : Text) (config : Config) (cosign : Option String) (receipt : Option ComputeReceipt)
      (e : ExtractedInvoice) (s : Repo E)
      → sv.extract text ≡ ok e
      → (a : Readable sv s.db) → Fresh s
      → config.policy_engine ≡ true
      → (r : PipelineResult) × ((run sv text config cosign receipt s).0 ≡ ok r)
        × (codes : List String) × Ended
            (it sv text config cosign receipt e s a)
            codes
            (guarded sv text config cosign receipt e s a s).1
            (run sv text config cosign receipt s).1
            r
        × Frame s (guarded sv text config cosign receipt e s a s).1
  run-Ended text config cosign receipt e s h a fr on_ =
      let f = it sv text config cosign receipt e s a in
      let w =
        run_guards-Answer sv.decimals sv.patterns sv.sha256_hex (propose_guards config) f.context s
          (it-Asks sv text config cosign receipt e s a) fr in
      let t = (guarded sv text config cosign receipt e s a s).1 in
      let (r, done, end) =
        settle-Ended f w.verdict.0 w.verdict.1 t w.live.frame.fresh
          (payable sv text config cosign receipt e s a w (inl on_)) in
      let same = run-settle sv text config cosign receipt e s a w.verdict h w.live.returns in
      (
        r,
        ap (λ x. x.0) same ∙ done,
        w.verdict.1,
        subst (λ x. Ended f w.verdict.1 t x.1 r) (sym same) end,
        w.live.frame,
      )
