-- ===== src/Pipeline/Answers.antt =====
-- The guard chain answers: it returns a verdict, and refuses if one of the guards does.
use lumo.Base.{
  ◌≡◌, refl, true, ◌||◌, some, List, [], ◌∷◌, String, ok, pure, ◌>>=◌, Bool-cases, inl, inr, All,
  arith,
}
use lumo.Models.{PaymentRequest, PolicyContext}
use lumo.Monitor.{text, texts}
use lumo.Db.Rows.{Tables}
use lumo.Db.Repo.{Repo, emit}
use lumo.Db.Fresh.{Fresh, Lives, Lives-result, Lives-bind, Lives-same, Lives-if, emit-Lives}
use lumo.Pipeline.Amount.{Decimals, AmountPatterns}
use lumo.Pipeline.Guards.{
  Outcome, propose, GuardResult, GuardContext, GuardKind, injection, policy_engine, policy_signer,
  attestation, proof_of_compute, amount_cross_check, k_of_n, human_cosign, Guard, stage_of,
  stage_eq, class_name, check,
}
use lumo.Pipeline.GuardChain.{
  Tally, start, is_refused, is_held, is_injection, outcome_name, count, start, applies, report,
  conclude, run_guard, run_loop, run_guards,
}

-- the context of a proposal: there is a request and a policy
pub record Asks (ctx : GuardContext) : Type 0 where
  pub req : PaymentRequest
  pub policy : PolicyContext
  pub stage_is : ctx.stage ≡ propose
  pub request_is : ctx.request ≡ some req
  pub policy_is : ctx.policy ≡ some policy

module _ {E : Type 0} where
  report-Lives : (k : GuardKind) (r : GuardResult) (s : Repo E) → Fresh s → Lives (report k r) s tt
  unfolding report
  report-Lives k r s f =
      let tripped =
        ("name", text (some (class_name k)))
        ∷ ("outcome", text (some (outcome_name r.outcome)))
        ∷ ("codes", texts r.codes)
        ∷ [] in
      let told = emit-Lives "guard.tripped" tripped s f in
      Lives-if (is_refused r.outcome || is_held r.outcome) _ _ s tt
        (Lives-bind (emit "guard.tripped" tripped) _ s tt tt told (
          Lives-if (is_injection k) _ _ (emit "guard.tripped" tripped s).1 tt
            (emit-Lives "injection.blocked" (("codes", texts r.codes) ∷ []) _ told.frame.fresh)
            (Lives-result _ tt told.frame.fresh)))
        (Lives-result s tt f)

module _ {D : Type 0} (dec : Decimals D) (pat : AmountPatterns) (sha256_hex : String → String) where
  check-answers :
      (ctx : GuardContext) (kind : GuardKind) (db : Tables)
      → Asks ctx
      → stage_eq (stage_of kind) ctx.stage ≡ true
      → (r : GuardResult) × (check dec pat sha256_hex kind ctx db ≡ ok r)
  unfolding check
  check-answers ctx injection db a h = rw a.request_is (_, refl)
  check-answers ctx policy_engine db a h = rw (a.request_is, a.policy_is) (_, refl)
  check-answers ctx policy_signer db a h = rw (a.request_is, a.policy_is) (_, refl)
  check-answers ctx attestation db a h = absurd (ground (arith, a.stage_is))
  check-answers ctx (k_of_n k) db a h = absurd (ground (arith, a.stage_is))
  check-answers ctx (human_cosign t) db a h = rw a.request_is (_, refl)
  check-answers ctx proof_of_compute db a h = (_, refl)
  check-answers ctx amount_cross_check db a h = rw a.request_is (_, refl)

  -- The guard applies, and its check refuses.
  pub record Refuses (ctx : GuardContext) (g : Guard) : Type 0 where
    pub applies_here : applies g ctx.stage ≡ true
    pub refuses :
        (db : Tables)
        → (r : GuardResult) × (check dec pat sha256_hex g.kind ctx db ≡ ok r)
          × (is_refused r.outcome ≡ true)

All-map :
    {A : Type 0} (P Q : A → Type 0) → ((a : A) → P a → Q a) → (xs : List A) → All P xs → All Q xs
All-map P Q f [] h = tt
All-map P Q f (x ∷ xs) (h, hs) = (f x h, All-map P Q f xs hs)

conclude-refused : (t : Tally) → t.refused ≡ true → is_refused (conclude t).0 ≡ true
conclude-refused t h = ground arith

module _ {E D : Type 0} (dec : Decimals D) (pat : AmountPatterns)
    (sha256_hex : String → String) where
  -- A round returns; the verdict refuses if it did before, or if the guard refuses.
  record Round (ctx : GuardContext) (g : Guard) (t : Tally) (s : Repo E) : Type 0 where
    next : Tally
    live : Lives (run_guard dec pat sha256_hex ctx g t) s next
    keeps : t.refused ≡ true → next.refused ≡ true
    stops : Refuses dec pat sha256_hex ctx g → next.refused ≡ true

  run_guard-Round :
      (ctx : GuardContext) (g : Guard) (t : Tally) (s : Repo E)
      → Asks ctx
      → Fresh s
      → Round ctx g t s
  unfolding run_guard
  run_guard-Round ctx g t s a f = elim (Bool-cases (applies g ctx.stage)) [
    | inl on_ ↦
        (let (r, e) = check-answers dec pat sha256_hex ctx g.kind s.db a (ground (arith, on_)) in
          record {
            next = count r t;
            live =
                Lives-same _ (report g.kind r >>= λ _. pure (count r t)) s (count r t)
                  (rw (on_, e) refl)
                  (Lives-bind (report g.kind r) _ s tt (count r t) (report-Lives g.kind r s f)
                    (Lives-result _ (count r t) (report-Lives g.kind r s f).frame.fresh));
            keeps = λ h. ground arith;
            stops = λ no. let (q, e', refuses) = no.refuses s.db in ground arith;
          })
    | inr off ↦ record {
      next = t;
      live = Lives-same _ (λ u. (ok t, u)) s t (rw off refl) (Lives-result s t f);
      keeps = λ h. h;
      stops = λ no. absurd (ground (arith, no.applies_here));
    }
  ]

  record Rounds (ctx : GuardContext) (gs : List Guard) (t : Tally) (s : Repo E) : Type 0 where
    final : Tally
    live : Lives (run_loop dec pat sha256_hex gs ctx t) s final
    keeps : t.refused ≡ true → final.refused ≡ true
    stops : All (λ g. Refuses dec pat sha256_hex ctx g → final.refused ≡ true) gs

  run_loop-Rounds :
      (gs : List Guard) (ctx : GuardContext) (t : Tally) (s : Repo E)
      → Asks ctx
      → Fresh s
      → Rounds ctx gs t s
  unfolding run_loop
  run_loop-Rounds [] ctx t s a f = record {
    final = t;
    live = Lives-result s t f;
    keeps = λ h. h;
    stops = tt;
  }
  run_loop-Rounds (g ∷ gs) ctx t s a f =
      let one = run_guard-Round ctx g t s a f in
      let more =
        run_loop-Rounds gs ctx one.next (run_guard dec pat sha256_hex ctx g t s).1 a
          one.live.frame.fresh in
      record {
        final = more.final;
        live =
            Lives-bind (run_guard dec pat sha256_hex ctx g t) _ s one.next more.final one.live
              more.live;
        keeps = λ h. more.keeps (one.keeps h);
        stops = (λ no. more.keeps (one.stops no), more.stops);
      }

  pub record Answer (ctx : GuardContext) (gs : List Guard) (s : Repo E) : Type 0 where
    pub verdict : Outcome × List String
    pub live : Lives (run_guards dec pat sha256_hex gs ctx) s verdict
    pub stops : All (λ g. Refuses dec pat sha256_hex ctx g → is_refused verdict.0 ≡ true) gs

  pub run_guards-Answer :
      (gs : List Guard) (ctx : GuardContext) (s : Repo E) → Asks ctx → Fresh s → Answer ctx gs s
  unfolding run_guards
  run_guards-Answer gs ctx s a f =
      let r = run_loop-Rounds gs ctx start s a f in
      record {
        verdict = conclude r.final;
        live =
            Lives-bind (run_loop dec pat sha256_hex gs ctx start) _ s r.final (conclude r.final)
              r.live (Lives-result _ (conclude r.final) r.live.frame.fresh);
        stops =
            All-map (λ g. Refuses dec pat sha256_hex ctx g → r.final.refused ≡ true)
              (λ g. Refuses dec pat sha256_hex ctx g → is_refused (conclude r.final).0 ≡ true)
              (λ g stop no. conclude-refused r.final (stop no)) gs r.stops;
      }
