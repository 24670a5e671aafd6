-- ===== src/Policy/Verdict.antt =====
-- What the policy engine allows, and what its codes say.
use lumo.Base.{
  ℤ, pos, ◌+ℤ◌, ◌≤ℤ◌, ◌<ℤ◌, ltb_ℤ, ◌≡◌, refl, ◌↔◌, Bool, true, false, not, ◌&&◌, Option, none, some,
  [], ◌∷◌, String, arith, eq_iff, elem,
}
use lumo.Models.{PaymentRequest, PolicyContext}
use lumo.Policy.{
  evaluate, committed, mismatch, is_empty, is_none, missing_amount, ok_code, injection_suspected,
  invalid_amount, unknown_supplier, address_mismatch, duplicate_request, over_tx_cap,
  over_daily_cap,
}

-- The contract of the policy: what a request must satisfy to be paid.
pub record IsPermitted (req : PaymentRequest) (ctx : PolicyContext) : Type 0 where
  pub amount : ℤ
  pub payee : String
  pub clean : req.injection_flags ≡ []
  pub has_amount : req.amount_stroops ≡ some amount
  pub positive : pos 0 <ℤ amount
  pub registered : req.registry_address ≡ some payee
  pub bound : (a : String) → req.invoice_address ≡ some a → a ≡ payee
  pub fresh : elem req.request_hash ctx.known_request_hashes ≡ false
  pub within_tx : amount ≤ℤ ctx.cap_per_tx
  pub within_day : committed ctx.prior_intents +ℤ amount ≤ℤ ctx.cap_daily

evaluate-IsPermitted :
    (req : PaymentRequest) (ctx : PolicyContext)
    → (evaluate req ctx).allowed ≡ true
    → IsPermitted req ctx
unfolding evaluate
evaluate-IsPermitted req ctx h = go req.amount_stroops req.registry_address refl refl
  where
    go :
        (a : Option ℤ) (r : Option String)
        → req.amount_stroops ≡ a
        → req.registry_address ≡ r
        → IsPermitted req ctx
    go (some a) (some r) ea er = record {
      amount = a;
      payee = r;
      clean = ground arith;
      has_amount = ea;
      positive = ground arith;
      registered = er;
      bound = λ i e. ground (arith, eq_iff i r);
      fresh = ground arith;
      within_tx = ground arith;
      within_day = ground arith;
    }
    go none r ea er = ground arith
    go (some a) none ea er = ground arith

mismatch_refl :
    (i : Option String) (r : String)
    → ((a : String) → i ≡ some a → a ≡ r)
    → mismatch i (some r) ≡ false
mismatch_refl none r h = refl
mismatch_refl (some i) r h = ground (arith, h i refl, eq_iff i r)

IsPermitted-evaluate :
    (req : PaymentRequest) (ctx : PolicyContext)
    → IsPermitted req ctx
    → evaluate req ctx ≡ record { allowed = true; codes = ok_code ∷ [] }
unfolding evaluate
IsPermitted-evaluate req ctx p = ground (arith, mismatch_refl req.invoice_address p.payee p.bound)

-- The engine allows a request exactly when it is permitted: clean, with a positive amount within
-- the cap of a transaction and what is left of the daily cap, for a registered supplier whose
-- address the invoice does not contradict, and with a request hash that is not known.
pub evaluate-allowed_iff :
    (req : PaymentRequest) (ctx : PolicyContext)
    → ((evaluate req ctx).allowed ≡ true) ↔ IsPermitted req ctx
evaluate-allowed_iff req ctx =
    (evaluate-IsPermitted req ctx, λ p. rw (IsPermitted-evaluate req ctx p))

-- The caps as independent tests; an amount that is not positive breaks neither.
abbrev pub breaks_tx_cap : Option ℤ → PolicyContext → Bool
breaks_tx_cap none ctx = false
breaks_tx_cap (some a) ctx = ltb_ℤ (pos 0) a && ltb_ℤ ctx.cap_per_tx a

abbrev pub breaks_daily_cap : Option ℤ → PolicyContext → Bool
breaks_daily_cap none ctx = false
breaks_daily_cap (some a) ctx =
    ltb_ℤ (pos 0) a && ltb_ℤ ctx.cap_daily (committed ctx.prior_intents +ℤ a)

pub evaluate-codes :
    (req : PaymentRequest) (ctx : PolicyContext)
    → let codes = (evaluate req ctx).codes in
      (elem injection_suspected codes ≡ not (is_empty req.injection_flags))
      × (elem invalid_amount codes ≡ missing_amount req.amount_stroops)
      × (elem unknown_supplier codes ≡ is_none req.registry_address)
      × (elem address_mismatch codes ≡ mismatch req.invoice_address req.registry_address)
      × (elem duplicate_request codes ≡ elem req.request_hash ctx.known_request_hashes)
      × (elem over_tx_cap codes ≡ breaks_tx_cap req.amount_stroops ctx)
      × (elem over_daily_cap codes ≡ breaks_daily_cap req.amount_stroops ctx)
      × (elem ok_code codes ≡ (evaluate req ctx).allowed)
unfolding evaluate
evaluate-codes req ctx = ground arith
