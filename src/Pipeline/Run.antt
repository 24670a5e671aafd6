-- ===== src/Pipeline/Run.antt =====
-- lumo/pipeline.py: `run`.
use lumo.Base.{
  ℤ, true, Option, none, some, List, [], ◌∷◌, ◌++◌, String, lookup, Action, Result, pure, or_raise,
  gets, ◌>>=◌, ◌>>◌, key_error, value_error, other,
}
use lumo.Models.{IntentDraft, PolicyContext, PipelineResult, Decision}
use lumo.Config.{Config}
use lumo.Injection.{Text}
use lumo.Db.Rows.{DecisionName}
use lumo.Db.Queries.{supplier_addresses, known_request_hashes}
use lumo.Db.Repo.{Repo, intents_today}
use lumo.Db.Decide.{record_decision}
use lumo.Pipeline.Guards.{
  Outcome, passed, refused, held, ComputeReceipt, Guard, amount_cross_check, build_guards,
}
use lumo.Pipeline.GuardChain.{run_guards}
use lumo.Pipeline.Findings.{
  Services, Findings, findings_of, named_supplier, draft_of, plan_of, result_of,
}

-- a decision without an intent id
abbrev pub decided :
    Findings
    → DecisionName
    → List String
    → Option IntentDraft
    → Option String
    → lumo.Db.Decide.Decision
decided f name codes draft detail = record {
  decision = name;
  codes = codes;
  request_hash = f.rhash;
  intent = draft;
  intent_id = none;
  detail = detail;
}

module _ {E : Type 0} where
  -- the decision on a verdict
  unfoldable pub settle : Findings → Outcome → List String → Action (Repo E) PipelineResult
  settle f refused codes = do
    record_decision (decided f DecisionName.refused codes none f.extracted.invoice_ref)
    pure (result_of f Decision.refused codes none none)
  settle f held codes = do
    supplier ← or_raise f.supplier other
    amount ← or_raise f.amount other
    outcome ←
        record_decision
          (decided f DecisionName.held codes (some (draft_of f supplier.id amount)) none)
    pure (result_of f Decision.held codes none outcome.intent_id)
  settle f passed codes = do
    supplier ← or_raise f.supplier other
    amount ← or_raise f.amount other
    outcome ←
        record_decision
          (decided f DecisionName.proposed codes (some (draft_of f supplier.id amount)) none)
    pure (
        result_of f Decision.proposed codes (some (plan_of f supplier.address amount))
          outcome.intent_id)

unfoldable pub propose_guards : Config → List Guard
unfolding build_guards
propose_guards config =
    build_guards config ++ record { kind = amount_cross_check; enabled = true } ∷ []

module _ {E D : Type 0} (sv : Services D) where
  abbrev pub rule_text : String → Repo E → Result String × Repo E
  rule_text key s = or_raise (lookup key s.db.policy_rules) key_error s

  abbrev pub rule_int : String → Repo E → Result ℤ × Repo E
  rule_int key = do t ← rule_text key; or_raise (sv.int_of t) value_error

  unfoldable pub read_policy : Action (Repo E) PolicyContext
  read_policy = do
    cap_per_tx ← rule_int "cap_per_tx"
    cap_daily ← rule_int "cap_daily"
    priors ← gets intents_today
    hashes ← gets (λ s. known_request_hashes s.db)
    pure (record {
      cap_per_tx = cap_per_tx;
      cap_daily = cap_daily;
      prior_intents = priors;
      known_request_hashes = hashes;
    })

  unfoldable pub examine :
      Text → Config → Option String → Option ComputeReceipt → Action (Repo E) Findings
  unfolding read_policy
  examine text config cosign receipt = do
    extracted ← (λ s. (sv.extract text, s))
    supplier ← gets (λ s. named_supplier extracted.supplier_name s.db)
    now ← gets (λ s. s.now)
    sme ← rule_text "sme_address"
    token ← rule_text "token_address"
    policy ← read_policy
    addresses ← gets (λ s. supplier_addresses s.db)
    pure (
        findings_of sv text config cosign receipt extracted supplier now sme token policy addresses)

  unfoldable pub run :
      Text → Config → Option String → Option ComputeReceipt → Action (Repo E) PipelineResult
  unfolding examine settle run_guards
  run text config cosign receipt = do
    f ← examine text config cosign receipt
    (verdict, codes) ←
        run_guards sv.decimals sv.patterns sv.sha256_hex (propose_guards config) f.context
    settle f verdict codes
