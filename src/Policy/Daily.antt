-- ===== src/Policy/Daily.antt =====
-- The amounts that count towards the daily cap.
use mathlib.Core.List.{foldl-append}
use lumo.Base.{
  Bool-cases, inl, inr, append-nil, ℤ, pos, ◌+ℤ◌, ◌≤ℤ◌, ◌≡◌, refl, Bool, true, List, [], ◌∷◌, ◌++◌,
  some, arith, select, if◌then◌else◌,
}
use lumo.Models.{Status, PriorIntent, PaymentRequest, PolicyContext}
use lumo.Policy.{committed, add_amount, is_counted, evaluate}

select-append {ℓ} :
    {A : Type ℓ} (p : A → Bool) (xs : List A) (x : A)
    → select p (xs ++ x ∷ []) ≡ select p xs ++ (if p x then x ∷ [] else [])
select-append p [] x = refl
select-append p (y ∷ ys) x = ground (arith, select-append p ys x)

-- One more intent adds its amount, if its status counts.
pub committed-append :
    (xs : List PriorIntent) (x : PriorIntent)
    → committed (xs ++ x ∷ [])
      ≡ (if is_counted x.status then committed xs +ℤ x.amount else committed xs)
unfolding committed
committed-append xs x = elim (Bool-cases (is_counted x.status)) [
  | inl counted ↦
      rw (select-append, counted)
        (foldl-append add_amount (pos 0) (select (λ i. is_counted i.status) xs) (x ∷ []))
  | inr not_counted ↦ rw (select-append, not_counted, append-nil)
]

pub evaluate-daily :
    (req : PaymentRequest) (ctx : PolicyContext) (a : ℤ)
    → (evaluate req ctx).allowed ≡ true
    → req.amount_stroops ≡ some a
    → committed (ctx.prior_intents ++ record { amount = a; status = Status.proposed } ∷ [])
      ≤ℤ ctx.cap_daily
unfolding evaluate
evaluate-daily req ctx a h e = rw committed-append (ground arith)
