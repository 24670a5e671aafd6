-- ===== src/Pipeline/Verdict.antt =====
-- What the verdict of `run_guards` says about the single guards.
use lumo.Base.{
  ◌≡◌, refl, ap, subst, ◌∙◌, sym, Bool, true, false, not, ◌&&◌, ◌||◌, List, [], ◌∷◌, ◌⊎◌, String,
  Result, ok, err, pure, bind_result, Error, Bool-cases, Result-cases, bind_ok, inl, inr, All,
  arith,
}
use lumo.Db.Rows.{Tables}
use lumo.Db.Repo.{Repo}
use lumo.Pipeline.Amount.{Decimals, AmountPatterns}
use lumo.Pipeline.Guards.{Outcome, passed, refused, held, GuardResult, GuardContext, Guard, check}
use lumo.Pipeline.GuardChain.{
  Tally, is_refused, is_held, is_passed, count, start, applies, report, conclude, run_guard,
  run_loop, run_guards,
}

abbrev pub is_clear : Tally → Bool
is_clear t = not t.refused && not t.held

conclude-clear :
    (t : Tally) (v : Outcome × List String)
    → conclude t ≡ v
    → is_passed v.0 ≡ true
    → is_clear t ≡ true
conclude-clear t v e h = ground arith

outcome_cases :
    (r : GuardResult) → (r.outcome ≡ passed) ⊎ (is_refused r.outcome || is_held r.outcome ≡ true)
outcome_cases r = by_outcome r.outcome
  where
    by_outcome : (o : Outcome) → (o ≡ passed) ⊎ (is_refused o || is_held o ≡ true)
    by_outcome passed = inl refl
    by_outcome refused = inr refl
    by_outcome held = inr refl

bind_pure :
    {S A B : Type 0} (c : Result A × S) (b b' : B)
    → (bind_result c.0 c.1 (λ _. pure b)).0 ≡ ok b'
    → b ≡ b'
bind_pure (ok a, s) b b' h = ground arith
bind_pure (err e, s) b b' h = ground arith

ok_value : {A : Type 0} {a b : A} → ok a ≡ ok b → a ≡ b
ok_value h = ground arith

err_ok : {A : Type 0} {e : Error} {a : A} → ¬ (err e ≡ ok a)
err_ok h = ground arith

troubled :
    (r : GuardResult) (t : Tally)
    → is_refused r.outcome || is_held r.outcome ≡ true
    → ¬ (is_clear (count r t) ≡ true)
troubled r t h c = ground arith

untroubled :
    (r : GuardResult) (t : Tally)
    → r.outcome ≡ passed
    → is_clear (count r t) ≡ true
    → is_clear t ≡ true
untroubled r t h c = ground arith

module _ {D : Type 0} (dec : Decimals D) (pat : AmountPatterns) (sha256_hex : String → String) where
  -- The guard does not apply, or its check passes.
  abbrev pub Passes : GuardContext → Tables → Guard → Type 0
  Passes ctx db g =
      (applies g ctx.stage ≡ false)
      ⊎ (r : GuardResult) × (check dec pat sha256_hex g.kind ctx db ≡ ok r) × (r.outcome ≡ passed)

module _ {E D : Type 0} (dec : Decimals D) (pat : AmountPatterns)
    (sha256_hex : String → String) where
  run_guard-clear :
      (ctx : GuardContext) (g : Guard) (t t' : Tally) (s : Repo E)
      → (run_guard dec pat sha256_hex ctx g t s).0 ≡ ok t'
      → is_clear t' ≡ true
      → (is_clear t ≡ true)
        × ((run_guard dec pat sha256_hex ctx g t s).1 ≡ s)
        × Passes dec pat sha256_hex ctx s.db g
  unfolding run_guard report
  run_guard-clear ctx g t t' s h c = elim (Bool-cases (applies g ctx.stage)) [
    | inl on_ ↦ elim (Result-cases (check dec pat sha256_hex g.kind ctx s.db)) [
      | inl (r, e) ↦ elim (outcome_cases r) [
        | inl fine ↦
            (let step : run_guard dec pat sha256_hex ctx g t s ≡ (ok (count r t), s) =
                rw (on_, e, fine) refl in
              let same : count r t ≡ t' = ok_value (sym (ap (λ p. p.0) step) ∙ h) in
              (untroubled r t fine (ap is_clear same ∙ c), ap (λ p. p.1) step, inr (r, e, fine)))
        | inr trouble ↦
            (let step : (run_guard dec pat sha256_hex ctx g t s).0
                  ≡ (bind_result (report g.kind r s).0 (report g.kind r s).1
                      (λ _. pure (count r t))).0 =
                rw (on_, e) refl in
              let same = bind_pure (report g.kind r s) (count r t) t' (sym step ∙ h) in
              absurd (troubled r t trouble (ap is_clear same ∙ c)))
      ]
      | inr (x, e) ↦
          (let step : (run_guard dec pat sha256_hex ctx g t s).0 ≡ err x = rw (on_, e) refl in
            absurd (err_ok (sym step ∙ h)))
    ]
    | inr off ↦
        (let step : run_guard dec pat sha256_hex ctx g t s ≡ (ok t, s) = rw off refl in
          let same : t ≡ t' = ok_value (sym (ap (λ p. p.0) step) ∙ h) in
          (ap is_clear same ∙ c, ap (λ p. p.1) step, inl off))
  ]

  run_loop-clear :
      (gs : List Guard) (ctx : GuardContext) (t t' : Tally) (s : Repo E)
      → (run_loop dec pat sha256_hex gs ctx t s).0 ≡ ok t'
      → is_clear t' ≡ true
      → (is_clear t ≡ true) × All (Passes dec pat sha256_hex ctx s.db) gs
  unfolding run_loop
  run_loop-clear [] ctx t t' s h c = (ap is_clear (ok_value h) ∙ c, tt)
  run_loop-clear (g ∷ gs) ctx t t' s h c =
      let round = run_guard dec pat sha256_hex ctx g t s in
      let (u, e, rest) = bind_ok round (run_loop dec pat sha256_hex gs ctx) t' h in
      let (clear, later) = run_loop-clear gs ctx u t' round.1 rest c in
      let (first, still, pass) = run_guard-clear ctx g t u s e clear in
      (
        first,
        (pass, subst (λ (x : Repo E). All (Passes dec pat sha256_hex ctx x.db) gs) still later),
      )

  -- `run_guards` returns the verdict `pass` only if each guard that is enabled for the stage of
  -- the context passes its check, on the tables that the call started with.
  pub run_guards-passed :
      (gs : List Guard) (ctx : GuardContext) (v : Outcome × List String) (s : Repo E)
      → (run_guards dec pat sha256_hex gs ctx s).0 ≡ ok v
      → is_passed v.0 ≡ true
      → All (Passes dec pat sha256_hex ctx s.db) gs
  unfolding run_guards
  run_guards-passed gs ctx v s h p =
      let (t, e, rest) =
        bind_ok (run_loop dec pat sha256_hex gs ctx start s) (λ t. pure (conclude t)) v h in
      (run_loop-clear gs ctx start t s e (conclude-clear t v (ok_value rest) p)).1
