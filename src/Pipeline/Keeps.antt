-- ===== src/Pipeline/Keeps.antt =====
-- What the guard chain and `run` do to the rows of `intents`.
use lumo.Base.{
  Bool, true, false, ◌||◌, some, List, [], ◌∷◌, String, Action, ok, pure, or_raise, gets, ◌>>=◌,
  ◌>>◌, if◌then◌else◌, value_error, not, other, guard_refused, ◌≡◌, Option, none, any, lookup,
  key_error, ◌++◌,
}
use lumo.Base.Stays.{
  Stays, IsPreorder, Stays-result, Stays-or_raise, Stays-if, Stays-bind, Stays-raise_if,
}
use lumo.Models.{Decision}
use lumo.Config.{Config}
use lumo.Monitor.{text, texts}
use lumo.Db.Rows.{Intent}
use lumo.Db.Repo.{Repo, emit}
use lumo.Db.Frame.{RowsEvolve, RowsEvolve-preorder, emit-Stays}
use lumo.Pipeline.Amount.{Decimals, AmountPatterns}
use lumo.Pipeline.Guards.{
  GuardResult, GuardContext, GuardKind, Guard, class_name, build_guards, check,
}
use lumo.Pipeline.GuardChain.{
  Tally, applies, count, start, conclude, is_refused, is_held, is_injection, is_passed,
  outcome_name, report, run_guard, run_loop, run_guards, release_check, release_context,
}
use lumo.Db.Rows.{DecisionName}
use lumo.Db.Decide.{record_decision}
use lumo.Db.Evolves.{Evolves}
use lumo.Db.Preserved.{
  taken, Preserves, Preserves-preorder, RowsEvolve-Preserves, record_decision-Preserves,
}
use lumo.Db.Repo.{intents_today}
use lumo.Db.Queries.{known_request_hashes, supplier_addresses}
use lumo.Pipeline.Findings.{
  Services, Findings, findings_of, named_supplier, draft_of, plan_of, result_of,
}
use lumo.Pipeline.Guards.{Outcome, passed, refused, held, ComputeReceipt}
use lumo.Pipeline.Run.{
  decided, settle, examine, run, propose_guards, rule_text, rule_int, read_policy,
}
use lumo.Injection.{Text}

module _ {E : Type 0} where
  abbrev pre : IsPreorder (RowsEvolve {E = E})
  pre = RowsEvolve-preorder

  report-Stays : (k : GuardKind) (r : GuardResult) → Stays (RowsEvolve {E = E}) (report k r)
  unfolding report
  report-Stays k r =
      let tripped =
        ("name", text (some (class_name k)))
        ∷ ("outcome", text (some (outcome_name r.outcome)))
        ∷ ("codes", texts r.codes)
        ∷ [] in
      Stays-if pre (is_refused r.outcome || is_held r.outcome) _ _
        (Stays-bind pre (emit "guard.tripped" tripped) _ (emit-Stays "guard.tripped" tripped) λ _.
          Stays-if pre (is_injection k) _ _
            (emit-Stays "injection.blocked" (("codes", texts r.codes) ∷ []))
            (Stays-result pre (λ s. ok tt)))
        (Stays-result pre (λ s. ok tt))

  module _ {D : Type 0} (dec : Decimals D) (pat : AmountPatterns) (sha : String → String) where
    run_guard-Stays :
        (ctx : GuardContext) (g : Guard) (t : Tally)
        → Stays (RowsEvolve {E = E}) (run_guard dec pat sha ctx g t)
    unfolding run_guard
    run_guard-Stays ctx g t = record { at_state = λ s. by_case (applies g ctx.stage) s }
      where
        asked : Action (Repo E) Tally
        asked = do
          result ← (λ s. (check dec pat sha g.kind ctx s.db, s))
          report g.kind result
          pure (count result t)

        asked-Stays : Stays RowsEvolve asked
        asked-Stays =
            Stays-bind pre (λ s. (check dec pat sha g.kind ctx s.db, s)) _
              (Stays-result pre (λ s. check dec pat sha g.kind ctx s.db))
              λ r.
                Stays-bind pre (report g.kind r) _ (report-Stays g.kind r)
                  λ _. Stays-result pre (λ s. ok (count r t))

        by_case : (b : Bool) (s : Repo E) → RowsEvolve s (if b then asked s else (ok t, s)).1
        by_case true s = asked-Stays.at_state s
        by_case false s = pre.start s

    run_loop-Stays :
        (gs : List Guard) (ctx : GuardContext) (t : Tally)
        → Stays (RowsEvolve {E = E}) (run_loop dec pat sha gs ctx t)
    unfolding run_loop
    run_loop-Stays [] ctx t = Stays-result pre (λ s. ok t)
    run_loop-Stays (g ∷ gs) ctx t =
        Stays-bind pre (run_guard dec pat sha ctx g t) _ (run_guard-Stays ctx g t)
          λ u. run_loop-Stays gs ctx u

    pub run_guards-Stays :
        (gs : List Guard) (ctx : GuardContext)
        → Stays (RowsEvolve {E = E}) (run_guards dec pat sha gs ctx)
    unfolding run_guards
    run_guards-Stays gs ctx =
        Stays-bind pre (run_loop dec pat sha gs ctx start) _ (run_loop-Stays gs ctx start)
          λ t. Stays-result pre (λ s. ok (conclude t))

    pub release_check-Stays :
        (config : Config) (row : Intent)
        → Stays (RowsEvolve {E = E}) (release_check dec pat sha config row)
    unfolding release_check
    release_check-Stays config row =
        Stays-bind pre (run_guards dec pat sha (build_guards config) (release_context row)) _
          (run_guards-Stays (build_guards config) (release_context row))
          λ v. Stays-raise_if pre (not (is_passed v.0)) (guard_refused v.1)

module _ {E D : Type 0} (sv : Services D) where
  rule_text-Stays : (key : String) → Stays (RowsEvolve {E = E}) (rule_text sv key)
  rule_text-Stays key = record {
    at_state = λ s.
        (Stays-or_raise RowsEvolve-preorder (lookup key s.db.policy_rules) key_error).at_state s;
  }

  rule_int-Stays : (key : String) → Stays (RowsEvolve {E = E}) (rule_int sv key)
  rule_int-Stays key =
      Stays-bind RowsEvolve-preorder (rule_text sv key) _ (rule_text-Stays key)
        λ t. Stays-or_raise RowsEvolve-preorder (sv.int_of t) value_error

  read_policy-Stays : Stays (RowsEvolve {E = E}) (read_policy sv)
  unfolding read_policy
  read_policy-Stays =
      let rows = RowsEvolve-preorder {E = E} in
      Stays-bind rows (rule_int sv "cap_per_tx") _ (rule_int-Stays "cap_per_tx") λ cap_per_tx.
        Stays-bind rows (rule_int sv "cap_daily") _ (rule_int-Stays "cap_daily") λ cap_daily.
          Stays-bind rows (gets intents_today) _ (Stays-result rows (λ s. ok (intents_today s)))
            λ priors.
              Stays-bind rows (gets (λ (s : Repo E). known_request_hashes s.db)) _
                (Stays-result rows (λ s. ok (known_request_hashes s.db)))
                λ hashes. Stays-result rows (λ s. ok (record {
                  cap_per_tx = cap_per_tx;
                  cap_daily = cap_daily;
                  prior_intents = priors;
                  known_request_hashes = hashes;
                }))

  examine-Stays :
      (invoice : Text) (config : Config) (cosign : Option String) (receipt : Option ComputeReceipt)
      → Stays (RowsEvolve {E = E}) (examine sv invoice config cosign receipt)
  unfolding examine
  examine-Stays invoice config cosign receipt =
      let rows = RowsEvolve-preorder {E = E} in
      Stays-bind rows (λ (w : Repo E). (sv.extract invoice, w)) _
        (Stays-result rows (λ s. sv.extract invoice))
        λ extracted.
          Stays-bind rows (gets (λ (w : Repo E). named_supplier extracted.supplier_name w.db)) _
            (Stays-result rows (λ w. ok (named_supplier extracted.supplier_name w.db)))
            λ supplier.
              Stays-bind rows (gets (λ (w : Repo E). w.now)) _ (Stays-result rows (λ w. ok w.now))
                λ now.
                  Stays-bind rows (rule_text sv "sme_address") _ (rule_text-Stays "sme_address")
                    λ sme.
                      Stays-bind rows (rule_text sv "token_address") _
                        (rule_text-Stays "token_address")
                        λ token. Stays-bind rows (read_policy sv) _ read_policy-Stays λ policy.
                          Stays-bind rows (gets (λ (w : Repo E). supplier_addresses w.db)) _
                            (Stays-result rows (λ w. ok (supplier_addresses w.db)))
                            λ addresses. Stays-result rows (λ s. ok (
                              findings_of sv invoice config cosign receipt extracted supplier now
                                sme token policy addresses))

-- A property of `intents` that `record_decision` keeps, `run` keeps.
module _ (P : List Intent → Type 0)
    (grow : (r : Intent) (rs : List Intent) → any (taken r) rs ≡ false → P rs → P (rs ++ r ∷ []))
    (turn : (rs rs' : List Intent) → Evolves rs rs' → P rs → P rs') where
  settle-Preserves :
      {E : Type 0} (f : Findings) (v : Outcome) (codes : List String)
      → Stays (Preserves {E = E} P) (settle f v codes)
  unfolding settle
  settle-Preserves {E} f refused codes =
      let repos = Preserves-preorder {E = E} P in
      let d = decided f DecisionName.refused codes none f.extracted.invoice_ref in
      Stays-bind repos (record_decision d) _ (record_decision-Preserves P grow turn d)
        λ _. Stays-result repos (λ s. ok (result_of f Decision.refused codes none none))
  settle-Preserves {E} f held codes =
      let repos = Preserves-preorder {E = E} P in
      Stays-bind repos (or_raise f.supplier other) _ (Stays-or_raise repos f.supplier other)
        λ supplier.
          Stays-bind repos (or_raise f.amount other) _ (Stays-or_raise repos f.amount other)
            λ amount.
              let d =
                decided f DecisionName.held codes (some (draft_of f supplier.id amount)) none in
              Stays-bind repos (record_decision d) _ (record_decision-Preserves P grow turn d)
                λ outcome.
                  Stays-result repos
                    (λ s. ok (result_of f Decision.held codes none outcome.intent_id))
  settle-Preserves {E} f passed codes =
      let repos = Preserves-preorder {E = E} P in
      Stays-bind repos (or_raise f.supplier other) _ (Stays-or_raise repos f.supplier other)
        λ supplier.
          Stays-bind repos (or_raise f.amount other) _ (Stays-or_raise repos f.amount other)
            λ amount.
              let d =
                decided f DecisionName.proposed codes (some (draft_of f supplier.id amount)) none in
              Stays-bind repos (record_decision d) _ (record_decision-Preserves P grow turn d)
                λ outcome. Stays-result repos (λ s. ok (
                  result_of f Decision.proposed codes (some (plan_of f supplier.address amount))
                    outcome.intent_id))

  pub run-Preserves :
      {E D : Type 0} (sv : Services D) (invoice : Text) (config : Config) (cosign : Option String)
      (receipt : Option ComputeReceipt)
      → Stays (Preserves {E = E} P) (run sv invoice config cosign receipt)
  unfolding run
  run-Preserves {E} sv invoice config cosign receipt =
      let repos = Preserves-preorder {E = E} P in
      Stays-bind repos (examine sv invoice config cosign receipt) _
        (RowsEvolve-Preserves P grow turn (examine sv invoice config cosign receipt)
          (examine-Stays sv invoice config cosign receipt))
        λ f.
          let asked =
            run_guards {E = E} sv.decimals sv.patterns sv.sha256_hex (propose_guards config)
              f.context in
          Stays-bind repos asked _
            (RowsEvolve-Preserves P grow turn asked (
              run_guards-Stays sv.decimals sv.patterns sv.sha256_hex (propose_guards config)
                f.context))
            λ v. settle-Preserves f v.0 v.1
