-- ===== src/Pipeline/Payment.antt =====
-- What `run` has checked before it returns a plan of a payment.
use lumo.Base.{
  ◌⊎◌, inl, inr, Bool-cases, ℤ, ◌≡◌, refl, ◌∙◌, Bool, true, false, Option, none, some, List, String,
  ok, gets, or_raise, bind_ok, All, other, arith,
}
use lumo.Base.Returns.{Returns, Returns-pure, Returns-bind, Returns-or_raise}
use lumo.Models.{TxPlan, PipelineResult}
use lumo.Config.{Config}
use lumo.Injection.{Text}
use lumo.Policy.{evaluate}
use lumo.Policy.Verdict.{IsPermitted, evaluate-allowed_iff}
use lumo.Db.Rows.{Tables, DecisionName}
use lumo.Db.Queries.{supplier_addresses}
use lumo.Db.Repo.{Repo}
use lumo.Db.Decide.{record_decision}
use lumo.Pipeline.Amount.{amount_matches_text}
use lumo.Pipeline.Guards.{
  Outcome, passed, refused, held, propose, ComputeReceipt, GuardContext, GuardKind, stage_of,
  policy_engine, amount_cross_check, check, check_engine, check_amount,
}
use lumo.Pipeline.GuardChain.{is_passed, run_guards, applies}
use lumo.Pipeline.Verdict.{Passes, run_guards-passed}
use lumo.Pipeline.Findings.{Services, Findings, findings_of, named_supplier, draft_of}
use lumo.Pipeline.Run.{decided, settle, examine, run, propose_guards, rule_text, read_policy}

-- the context of the guards carries the request, for the amount that was found
abbrev Poses : Findings → Type 0
Poses f =
    (f.context.stage ≡ propose)
    × (f.context.request ≡ some f.request)
    × (f.context.policy ≡ some f.policy)
    × (f.request.amount_stroops ≡ f.amount)

-- the plan in a result goes with the verdict and the amount that was found
abbrev Planned : Findings → Outcome → PipelineResult → Type 0
Planned f v r =
    (plan : TxPlan)
    → r.tx_plan ≡ some plan
    → (is_passed v ≡ true) × (f.amount ≡ some plan.args.amount)

module _ {E : Type 0} where
  settle-Planned :
      (f : Findings) (v : Outcome) (codes : List String)
      → Returns (Planned f v) (settle {E = E} f v codes)
  unfolding settle
  settle-Planned f refused codes =
      Returns-bind (Planned f refused)
        (record_decision (decided f DecisionName.refused codes none f.extracted.invoice_ref)) _
        λ _. Returns-pure (Planned f refused) _ λ plan e. ground arith
  settle-Planned f held codes =
      Returns-bind (Planned f held) (or_raise f.supplier other) _ λ supplier.
        Returns-bind (Planned f held) (or_raise f.amount other) _ λ amount.
          Returns-bind (Planned f held)
            (record_decision
              (decided f DecisionName.held codes (some (draft_of f supplier.id amount)) none))
            _ λ _. Returns-pure (Planned f held) _ λ plan e. ground arith
  settle-Planned f passed codes =
      Returns-bind (Planned f passed) (or_raise f.supplier other) _ λ supplier.
        Returns-or_raise (Planned f passed) f.amount other _ λ amount found.
          Returns-bind (Planned f passed)
            (record_decision
              (decided f DecisionName.proposed codes (some (draft_of f supplier.id amount)) none))
            _ λ _. Returns-pure (Planned f passed) _ λ plan e. (refl, ground arith)

module _ {E D : Type 0} (sv : Services D) where
  examine-Poses :
      (text : Text) (config : Config) (cosign : Option String) (receipt : Option ComputeReceipt)
      → Returns Poses (examine {E = E} sv text config cosign receipt)
  unfolding examine
  examine-Poses text config cosign receipt =
      Returns-bind Poses (λ (w : Repo E). (sv.extract text, w)) _
        λ extracted.
          Returns-bind Poses (gets (λ (w : Repo E). named_supplier extracted.supplier_name w.db)) _
            λ supplier. Returns-bind Poses (gets (λ (w : Repo E). w.now)) _ λ now.
              Returns-bind Poses (rule_text sv "sme_address") _ λ sme.
                Returns-bind Poses (rule_text sv "token_address") _ λ token.
                  Returns-bind Poses (read_policy sv) _ λ policy.
                    Returns-bind Poses (gets (λ (w : Repo E). supplier_addresses w.db)) _
                      λ addresses.
                        Returns-pure Poses
                          (findings_of sv text config cosign receipt extracted supplier now sme
                            token policy addresses)
                          (refl, refl, refl, refl)

applies_here :
    (ctx : GuardContext) (kind : GuardKind) (on_ : Bool)
    → ctx.stage ≡ propose
    → on_ ≡ true
    → stage_of kind ≡ propose
    → ¬ (applies (record { kind = kind; enabled = on_ }) ctx.stage ≡ false)
applies_here ctx kind on_ st e k off = ground arith

module _ {D : Type 0} (sv : Services D) where
  abbrev Clears : Findings → Tables → GuardKind → Bool → Type 0
  Clears f db kind on_ =
      Passes sv.decimals sv.patterns sv.sha256_hex f.context db
        (record { kind = kind; enabled = on_ })

  -- two of the guards of `propose_guards`
  two_guards :
      (config : Config) (f : Findings) (db : Tables)
      → All (Passes sv.decimals sv.patterns sv.sha256_hex f.context db) (propose_guards config)
      → Clears f db policy_engine config.policy_engine × Clears f db amount_cross_check true
  unfolding propose_guards
  two_guards config f db (i, (p, (s, (a, (k, (h, (c, (x, _)))))))) = (p, x)

  amount_checked :
      (f : Findings) (n : ℤ) (db : Tables)
      → Poses f
      → f.amount ≡ some n
      → Clears f db amount_cross_check true
      → amount_matches_text sv.decimals sv.patterns n f.context.invoice_text ≡ true
  unfolding check check_amount
  amount_checked f n db (st, rq, po, am) e pass = elim pass [
    | inl off ↦ absurd (applies_here f.context amount_cross_check true st refl refl off)
    | inr (r, checked, fine) ↦ ground arith
  ]

  engine_checked :
      (f : Findings) (on_ : Bool) (db : Tables)
      → Poses f
      → on_ ≡ true
      → Clears f db policy_engine on_
      → (evaluate f.request f.policy).allowed ≡ true
  unfolding check check_engine
  engine_checked f on_ db (st, rq, po, am) e pass = elim pass [
    | inl off ↦ absurd (applies_here f.context policy_engine on_ st e refl off)
    | inr (r, checked, fine) ↦ ground arith
  ]

module _ {E D : Type 0} (sv : Services D) where
  -- Where `run` returns a result with a plan, the amount of the plan is the amount of the
  -- request and stands in the scanned text of the invoice, as `amount_matches_text` looks for it,
  -- and the policy permits the request, or the policy engine is not enabled.
  pub run-plan_checked :
      (text : Text) (config : Config) (cosign : Option String) (receipt : Option ComputeReceipt)
      (s : Repo E) (result : PipelineResult) (plan : TxPlan)
      → (run sv text config cosign receipt s).0 ≡ ok result
      → result.tx_plan ≡ some plan
      → (f : Findings) × ((examine sv text config cosign receipt s).0 ≡ ok f)
        × (amount_matches_text sv.decimals sv.patterns plan.args.amount f.context.invoice_text
            ≡ true)
        × (f.request.amount_stroops ≡ some plan.args.amount)
        × ((config.policy_engine ≡ false) ⊎ IsPermitted f.request f.policy)
  unfolding run
  run-plan_checked text config cosign receipt s result plan h planned =
      let start = examine sv text config cosign receipt s in
      let (f, found, rest) = bind_ok start _ result h in
      let poses = (examine-Poses sv text config cosign receipt).value s f found in
      let guards = propose_guards config in
      let asked = run_guards sv.decimals sv.patterns sv.sha256_hex guards f.context start.1 in
      let (v, verdict, last) = bind_ok asked _ result rest in
      let (pass, amount) = (settle-Planned f v.0 v.1).value asked.1 result last plan planned in
      let (engine, cross) = two_guards sv config f start.1.db (
        run_guards-passed sv.decimals sv.patterns sv.sha256_hex guards f.context v start.1 verdict
          pass) in
      (
        f,
        found,
        amount_checked sv f plan.args.amount start.1.db poses amount cross,
        poses.3 ∙ amount,
        elim (Bool-cases config.policy_engine) [
          | inl on_ ↦ inr (
              (evaluate-allowed_iff f.request f.policy).0
                (engine_checked sv f config.policy_engine start.1.db poses on_ engine))
          | inr off ↦ inl off
        ],
      )
