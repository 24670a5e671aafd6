-- ===== src/Base/Returns.antt =====
-- What an action's value satisfies, from whatever state the action starts.
use mathlib.Core.Path.{◌≡◌, refl, subst}
use mathlib.Core.Option.{Option, none, some}
use native.Mathlib.Omega.{arith}
use lumo.Base.Effects.{Error, or_raise, ok, Action, pure, ◌>>=◌, bind_ok}

pub record Returns {S A : Type 0} (P : A → Type 0) (m : Action S A) : Type 0 where
  pub value : (s : S) (a : A) → (m s).0 ≡ ok a → P a

module _ {S : Type 0} where
  pub Returns-pure : {A : Type 0} (P : A → Type 0) (a : A) → P a → Returns P (pure {S = S} a)
  Returns-pure P a p = record { value = λ s b h. subst P (let e : a ≡ b = ground arith in e) p }

  pub Returns-bind :
      {A B : Type 0} (P : B → Type 0) (m : Action S A) (f : A → Action S B)
      → ((a : A) → Returns P (f a))
      → Returns P (m >>= f)
  Returns-bind P m f kf = record {
    value = λ s b h. let (a, e, rest) = bind_ok (m s) f b h in (kf a).value (m s).1 b rest;
  }

  pub Returns-or_raise :
      {A B : Type 0} (P : B → Type 0) (o : Option A) (e : Error) (f : A → Action S B)
      → ((a : A) → o ≡ some a → Returns P (f a))
      → Returns P (or_raise o e >>= f)
  Returns-or_raise P none e f kf = record { value = λ s b h. ground arith }
  Returns-or_raise P (some a) e f kf = record { value = λ s b h. (kf a refl).value s b h }
