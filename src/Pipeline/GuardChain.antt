-- ===== src/Pipeline/GuardChain.antt =====
-- lumo/pipeline.py: `run_guards` and `release_check`.
use lumo.Base.{
  Bool, true, false, not, ◌&&◌, ◌||◌, none, some, List, [], ◌∷◌, ◌++◌, String, if◌then◌else◌, elem,
  Action, ok, pure, raise_if, ◌>>=◌, ◌>>◌, guard_refused,
}
use lumo.Config.{Config}
use lumo.Policy.{ok_code}
use lumo.Monitor.{text, texts}
use lumo.Db.Rows.{Intent}
use lumo.Db.Repo.{Repo, emit}
use lumo.Pipeline.Amount.{Decimals, AmountPatterns}
use lumo.Pipeline.Guards.{
  Outcome, passed, refused, held, GuardResult, Stage, release, stage_eq, GuardContext, GuardKind,
  injection, Guard, stage_of, class_name, build_guards, check,
}

-- `codes.extend(c for c in new if c not in codes)`: the test sees the codes added so far.
unfoldable pub extend_codes : List String → List String → List String
extend_codes codes [] = codes
extend_codes codes (c ∷ cs) = extend_codes (if elem c codes then codes else codes ++ c ∷ []) cs

-- The variables of the loop.
pub record Tally : Type 0 where
  pub codes : List String
  pub refused : Bool
  pub held : Bool

abbrev pub is_refused : Outcome → Bool
is_refused refused = true
is_refused _ = false

abbrev pub is_held : Outcome → Bool
is_held held = true
is_held _ = false

abbrev pub outcome_name : Outcome → String
outcome_name passed = "pass"
outcome_name refused = "refuse"
outcome_name held = "hold"

abbrev pub is_injection : GuardKind → Bool
is_injection injection = true
is_injection _ = false

abbrev pub count : GuardResult → Tally → Tally
count r t = record {
  codes = extend_codes t.codes r.codes;
  refused = is_refused r.outcome || t.refused;
  held = is_held r.outcome || t.held;
}

abbrev pub start : Tally
start = record { codes = []; refused = false; held = false }

abbrev pub applies : Guard → Stage → Bool
applies g stage = g.enabled && stage_eq (stage_of g.kind) stage

module _ {E : Type 0} where
  unfoldable pub report : GuardKind → GuardResult → Action (Repo E) (Unit {0})
  report kind result =
      if is_refused result.outcome || is_held result.outcome
      then (do
        emit "guard.tripped" (
            ("name", text (some (class_name kind)))
            ∷ ("outcome", text (some (outcome_name result.outcome)))
            ∷ ("codes", texts result.codes)
            ∷ [])
        if is_injection kind
            then emit "injection.blocked" (("codes", texts result.codes) ∷ [])
            else pure tt)
      else pure tt

abbrev pub conclude : Tally → Outcome × List String
conclude t =
    if t.refused
    then (refused, t.codes)
    else if t.held
    then (held, t.codes)
    else (passed, ok_code ∷ [])

abbrev pub release_context : Intent → GuardContext
release_context row = record {
  stage = release;
  request = none;
  policy = none;
  supplier_addresses = [];
  cosign_token = none;
  compute_receipt = none;
  intent = some row;
  invoice_text = [];
}

abbrev pub is_passed : Outcome → Bool
is_passed passed = true
is_passed _ = false

module _ {E D : Type 0} (dec : Decimals D) (pat : AmountPatterns)
    (sha256_hex : String → String) where
  -- one round of the loop
  unfoldable pub run_guard : GuardContext → Guard → Tally → Action (Repo E) Tally
  unfolding report
  run_guard ctx g t s =
      if applies g ctx.stage
      then (do
        result ← (λ s'. (check dec pat sha256_hex g.kind ctx s'.db, s'))
        report g.kind result
        pure (count result t))
          s
      else (ok t, s)

  unfoldable pub run_loop : List Guard → GuardContext → Tally → Action (Repo E) Tally
  unfolding run_guard
  run_loop [] ctx t = pure t
  run_loop (g ∷ gs) ctx t = run_guard ctx g t >>= run_loop gs ctx

  unfoldable pub run_guards : List Guard → GuardContext → Action (Repo E) (Outcome × List String)
  unfolding run_loop
  run_guards guards ctx = do t ← run_loop guards ctx start; pure (conclude t)

  unfoldable pub release_check : Config → Intent → Action (Repo E) (Unit {0})
  unfolding run_guards build_guards
  release_check config row = do
    (verdict, codes) ← run_guards (build_guards config) (release_context row)
    raise_if (not (is_passed verdict)) (guard_refused codes)
