-- ===== src/Tests/Pipeline.antt =====
-- The pipeline (lumo/pipeline.py) and the records of its decisions on small inputs.
use lumo.Base.{
  pos, ◌+ℤ◌, ◌≡◌, ◌⊎◌, refl, true, false, none, some, List, [], ◌∷◌, String, elem, any, ok, arith,
  All,
}
use lumo.Models.{PipelineResult, TxPlan, Decision}
use lumo.Policy.{evaluate, committed}
use lumo.Policy.Verdict.{IsPermitted}
use lumo.Config.{Config, defaults}
use lumo.Injection.{scan, Text}
use lumo.Db.Rows.{insert_intent, insert_decision, DecisionName}
use lumo.Db.Queries.{attestations}
use lumo.Db.Repo.{intents_today, emit}
use lumo.Db.Decide
use lumo.Db.Decide.{record_decision}
use lumo.Db.Unique.{IsUnique, record_decision-IsUnique}
use lumo.Pipeline.Amount.{amount_matches_text, labeled_amounts, amount_tokens, to_stroops}
use lumo.Pipeline.Guards.{
  Guard, GuardContext, injection, passed, propose, shipped_oracles, check, check_engine,
  check_amount,
}
use lumo.Pipeline.GuardChain.{run_guards}
use lumo.Pipeline.Findings.{Findings}
use lumo.Pipeline.Run.{propose_guards, run, examine}
use lumo.Pipeline.Verdict.{Passes, run_guards-passed}
use lumo.Pipeline.Oracles.{IsDistinct, signs, shipped_oracles_lem}
use lumo.Pipeline.Payment.{run-plan_checked}
use lumo.Tests.Data.{keep, whole, patterns, services, row, tables, signed, repo}

abbrev config : Config
config = record defaults { policy_signer = false }

abbrev letter : Text
letter = b'5' ∷ []

abbrev plan : TxPlan
plan = record {
  args = record {
    sme = "SME";
    supplier = "SUP";
    token = "T";
    amount = pos 5;
    request_hash = "H1";
    deadline = pos 3600;
  };
}

abbrev proposal : PipelineResult
proposal = record {
  decision = Decision.proposed;
  codes = "OK" ∷ [];
  flags = [];
  request_hash = "H1";
  tx_plan = some plan;
  intent_id = some "I1";
}

run_proposes : (run services letter config none none (repo [])).0 ≡ ok proposal
unfolding run check check_engine check_amount amount_matches_text labeled_amounts amount_tokens
    to_stroops evaluate committed ◌+ℤ◌ scan propose_guards record_decision insert_intent
    insert_decision emit intents_today
run_proposes = refl

run-plan_checked_example :
    (f : Findings) × ((examine services letter config none none (repo [])).0 ≡ ok f)
    × (amount_matches_text whole patterns (pos 5) f.context.invoice_text ≡ true)
    × (f.request.amount_stroops ≡ some (pos 5))
    × ((config.policy_engine ≡ false) ⊎ IsPermitted f.request f.policy)
run-plan_checked_example =
    run-plan_checked services letter config none none (repo []) proposal plan run_proposes refl

abbrev chain : List Guard
chain = record { kind = injection; enabled = true } ∷ []

abbrev context : GuardContext
context = record {
  stage = propose;
  request = some (record {
    supplier_name = some "Acme";
    registry_address = some "SUP";
    invoice_address = none;
    amount_stroops = some (pos 5);
    request_hash = "H1";
    injection_flags = [];
  });
  policy = none;
  supplier_addresses = [];
  cosign_token = none;
  compute_receipt = none;
  intent = none;
  invoice_text = letter;
}

chain_passes : (run_guards whole patterns keep chain context (repo [])).0 ≡ ok (passed, "OK" ∷ [])
unfolding run_guards check
chain_passes = refl

run_guards-passed_example : All (Passes whole patterns keep context (tables [] signed)) chain
run_guards-passed_example =
    run_guards-passed whole patterns keep chain context (passed, "OK" ∷ []) (repo []) chain_passes
      refl

shipped_oracles_lem_example :
    IsDistinct (shipped_oracles row (tables (row ∷ []) signed))
    × ((a : String)
        → elem a (shipped_oracles row (tables (row ∷ []) signed))
          ≡ any (signs row a) (attestations "I1" (tables (row ∷ []) signed)))
shipped_oracles_lem_example = shipped_oracles_lem row (tables (row ∷ []) signed)

abbrev twice : Decide.Decision
twice = record {
  decision = DecisionName.proposed;
  codes = "OK" ∷ [];
  request_hash = "H1";
  intent = some (record {
    supplier_id = "S1";
    amount = pos 5;
    token = "T";
    deadline = pos 3600;
    invoice_ref = none;
    request_hash = "H1";
  });
  intent_id = none;
  detail = none;
}

record_decision-IsUnique_example : IsUnique (record_decision twice (repo (row ∷ []))).1.db.intents
record_decision-IsUnique_example =
    record_decision-IsUnique twice (repo (row ∷ [])) (λ i. ground arith, λ k. ground arith)
