-- ===== src/Base/Ends.antt =====
-- A call that returns a value, and what holds of the state afterwards.
use mathlib.Core.Path.{◌≡◌, refl, ap, sym, subst, ◌∙◌}
use native.Mathlib.Omega.{arith}
use lumo.Base.Effects.{Result, ok, err, Action, ◌>>=◌, bind_result}

pub record Ends {S A : Type 0} (P : S → Type 0) (m : Action S A) (s : S) (a : A) : Type 0 where
  pub returns : (m s).0 ≡ ok a
  pub after : P (m s).1

module _ {S : Type 0} where
  pub Ends-result :
      {A : Type 0} (P : S → Type 0) (s : S) (a : A) → P s → Ends P (λ t. (ok a, t)) s a
  Ends-result P s a p = record { returns = refl; after = p }

  chained :
      {A B : Type 0} (Q : S → Type 0) (c : Result A × S) (f : A → Action S B) (a : A) (b : B)
      → c.0 ≡ ok a
      → (f a c.1).0 ≡ ok b
      → Q (f a c.1).1
      → ((bind_result c.0 c.1 f).0 ≡ ok b) × Q (bind_result c.0 c.1 f).1
  chained Q (ok x, t) f a b e v q =
      let same : a ≡ x = ground arith in subst (λ y. ((f y t).0 ≡ ok b) × Q (f y t).1) same (v, q)
  chained Q (err x, t) f a b e v q = absurd (ground arith)

  pub Ends-bind :
      {A B : Type 0} {P Q : S → Type 0} (m : Action S A) (f : A → Action S B) (s : S) (a : A)
      (b : B)
      → Ends P m s a
      → (P (m s).1 → Ends Q (f a) (m s).1 b)
      → Ends Q (m >>= f) s b
  Ends-bind {P} {Q} m f s a b l k =
      let e = k l.after in
      let (v, q) = chained Q (m s) f a b l.returns e.returns e.after in
      record { returns = v; after = q }

  -- It depends on what the call does in that state.
  pub Ends-same :
      {A : Type 0} {P : S → Type 0} (m n : Action S A) (s : S) (a : A)
      → m s ≡ n s
      → Ends P n s a
      → Ends P m s a
  Ends-same {P} m n s a e l = record {
    returns = ap (λ c. c.0) e ∙ l.returns;
    after = subst (λ c. P c.1) (sym e) l.after;
  }
