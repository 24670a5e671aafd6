-- ===== src/Base/Effects.antt =====
-- A method call: it changes the state that it is given, and returns a value or raises. What was
-- written before a raise stays written.
use Prim.Native.String.{String}
use mathlib.Core.Path.{◌≡◌, refl, ap}
use mathlib.Core.Logic.{◌⊎◌, inl, inr}
use mathlib.Core.Bool.{Bool}
use mathlib.Core.Option.{Option, none, some}
use mathlib.Core.List.{List}
use native.Mathlib.Omega.{arith}
use lumo.Base.Tests.{if◌then◌else◌}

-- The exceptions that the code raises or handles. `other` is any further exception.
pub data Error : Type 0 where
  value_error key_error index_error type_error http_error integrity_error chain_error : Error
  not_implemented webhook_url_error other : Error
  submitted_unconfirmed : Option String → Error
  guard_refused : List String → Error

pub data Result {ℓ} (A : Type ℓ) : Type ℓ where
  ok : A → Result A
  err : Error → Result A

abbrev pub Action {ℓ κ} : Type κ → Type ℓ → Type (ℓ ⊔ κ)
Action S A = S → Result A × S

module _ {ℓ κ} {S : Type κ} {A : Type ℓ} where
  abbrev pub pure : A → Action S A
  pure a s = (ok a, s)

  abbrev pub raise : Error → Action S A
  raise e s = (err e, s)

  abbrev pub gets : (S → A) → Action S A
  gets f s = (ok (f s), s)

  abbrev pub or_raise : Option A → Error → Action S A
  or_raise none e = raise e
  or_raise (some a) _ = pure a

abbrev pub bind_result {ℓ κ μ} :
    {S : Type κ} {A : Type ℓ} {B : Type μ} → Result A → S → (A → Action S B) → Result B × S
bind_result (ok a) s f = f a s
bind_result (err e) s f = (err e, s)

infixl 5 ◌>>=◌ ◌>>◌
abbrev pub ◌>>=◌ {ℓ κ μ} :
    {S : Type κ} {A : Type ℓ} {B : Type μ} → Action S A → (A → Action S B) → Action S B
◌>>=◌ m f s = let (r, s') = m s in bind_result r s' f

abbrev pub ◌>>◌ {ℓ κ μ} :
    {S : Type κ} {A : Type ℓ} {B : Type μ} → Action S A → Action S B → Action S B
m >> k = m >>= λ _. k

module _ {κ} {S : Type κ} where
  abbrev pub raise_if : Bool → Error → Action S (Unit {0})
  raise_if c e s = (if c then err e else ok tt, s)

  abbrev pub modify : (S → S) → Action S (Unit {0})
  modify f s = (ok tt, f s)

pub Result-cases {ℓ} :
    {A : Type ℓ} (r : Result A) → ((a : A) × (r ≡ ok a)) ⊎ ((e : Error) × (r ≡ err e))
Result-cases (ok a) = inl (a, refl)
Result-cases (err e) = inr (e, refl)

-- If a chain of two actions returns, both do.
pub bind_ok :
    {S A B : Type 0} (c : Result A × S) (f : A → Action S B) (b : B)
    → (bind_result c.0 c.1 f).0 ≡ ok b
    → (a : A) × (c.0 ≡ ok a) × ((f a c.1).0 ≡ ok b)
bind_ok (ok a, s) f b h = (a, refl, h)
bind_ok (err e, s) f b h = ground arith

-- The state after a chain whose first action returns.
pub bind_state :
    {S A B : Type 0} (c : Result A × S) (f : A → Action S B) (a : A)
    → c.0 ≡ ok a
    → (bind_result c.0 c.1 f).1 ≡ (f a c.1).1
bind_state (ok b, s) f a h = let same : b ≡ a = ground arith in ap (λ x. (f x s).1) same
bind_state (err e, s) f a h = absurd (ground arith)
