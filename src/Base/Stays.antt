-- ===== src/Base/Stays.antt =====
-- Relations that hold from before a call to after it, whether it returns or raises, with a rule
-- for each way to build a call.
use mathlib.Core.Bool.{Bool, true, false}
use mathlib.Core.Option.{Option, none, some}
use lumo.Base.Tests.{if◌then◌else◌}
use lumo.Base.Effects.{Error, Result, ok, err, Action, or_raise, raise_if, ◌>>=◌, bind_result}

pub record Stays {S A : Type 0} (R : S → S → Type 0) (m : Action S A) : Type 0 where
  pub at_state : (s : S) → R s (m s).1

-- A relation that the rules need: every state is related to itself, and steps compose.
pub record IsPreorder {S : Type 0} (R : S → S → Type 0) : Type 0 where
  pub start : (s : S) → R s s
  pub chain : (s t u : S) → R s t → R t u → R s u

module _ {S : Type 0} {R : S → S → Type 0} (pre : IsPreorder R) where
  pub Stays-result : {A : Type 0} (r : S → Result A) → Stays R (λ s. (r s, s))
  Stays-result r = record { at_state = λ s. pre.start s }

  pub Stays-or_raise : {A : Type 0} (o : Option A) (e : Error) → Stays R (or_raise o e)
  Stays-or_raise none e = record { at_state = λ s. pre.start s }
  Stays-or_raise (some a) e = record { at_state = λ s. pre.start s }

  pub Stays-if :
      {A : Type 0} (b : Bool) (m n : Action S A)
      → Stays R m
      → Stays R n
      → Stays R (if b then m else n)
  Stays-if true m n km kn = km
  Stays-if false m n km kn = kn

  pub Stays-bind :
      {A B : Type 0} (m : Action S A) (f : A → Action S B)
      → Stays R m
      → ((a : A) → Stays R (f a))
      → Stays R (m >>= f)
  Stays-bind {A} {B} m f km kf = record { at_state = λ s. step s (m s) (km.at_state s) }
    where
      step : (s : S) (r : Result A × S) → R s r.1 → R s (bind_result r.0 r.1 f).1
      step s (ok a, t) h = pre.chain s t (f a t).1 h ((kf a).at_state t)
      step s (err e, t) h = h

  pub Stays-raise_if : (b : Bool) (e : Error) → Stays R (raise_if b e)
  Stays-raise_if b e = record { at_state = λ s. pre.start s }
