-- ===== src/Chain/Mock/Solvency.antt =====
-- The vault of the in-process chain always covers the funded intents, so that a release or a
-- refund that the rules allow never fails for lack of funds.
use mathlib.Core.Option.{some-injective}
use lumo.Base.{
  ℕ, zero, suc, ℤ, pos, ◌+ℤ◌, ◌-ℤ◌, ◌≤ℤ◌, ◌<ℤ◌, ◌≡◌, ◌≢◌, ap, pos_part, neg_part, true, false,
  Bool-cases, some, List, [], ◌∷◌, ◌++◌, String, ◌==◌, ◌&&◌, if◌then◌else◌, arith, int_laws, inl,
  inr, All,
}
use lumo.Chain.Mock.{MockChain, MockIntent, is_funded, intent_at, write_at, balance_of, vault}

-- what an intent still claims from the vault, in a token
unfoldable pub claim : String → MockIntent → ℤ
claim t i = if is_funded i.status && i.token == t then i.amount else pos 0

unfoldable pub escrowed : String → List MockIntent → ℤ
escrowed t [] = pos 0
escrowed t (i ∷ is) = claim t i +ℤ escrowed t is

abbrev pub IsSound : MockIntent → Type 0
IsSound i = (pos 0 <ℤ i.amount) × (i.sme ≢ vault) × (i.supplier ≢ vault)

-- The vault covers what is in escrow; amounts are positive, and no party is the vault itself.
pub record IsSolvent (s : MockChain) : Type 0 where
  pub covered : (t : String) → escrowed t s.intents ≤ℤ balance_of t vault s
  pub sound : All IsSound s.intents

pub escrowed-append :
    (t : String) (is : List MockIntent) (i : MockIntent)
    → escrowed t (is ++ i ∷ []) ≡ escrowed t is +ℤ claim t i
unfolding escrowed
escrowed-append t [] i = omega int_laws
escrowed-append t (j ∷ is) i = rw (escrowed-append t is i) (omega int_laws)

pub escrowed-write_at :
    (t : String) (id : ℕ) (i j : MockIntent) (is : List MockIntent)
    → intent_at id is ≡ some i
    → escrowed t (write_at id j is) +ℤ claim t i ≡ escrowed t is +ℤ claim t j
unfolding escrowed
escrowed-write_at t zero i j is h = cc
escrowed-write_at t (suc n) i j [] h = cc
escrowed-write_at t (suc zero) i j (x ∷ is) h =
    let e : claim t x ≡ claim t i = ap (claim t) (some-injective x i h) in
    omega (int_laws, ap pos_part e, ap neg_part e)
escrowed-write_at t (suc (suc n)) i j (x ∷ is) h =
    let e = escrowed-write_at t (suc n) i j is h in omega (int_laws, ap pos_part e, ap neg_part e)

pub claim_funded :
    (t : String) (i : MockIntent)
    → is_funded i.status ≡ true
    → claim t i ≡ (if i.token == t then i.amount else pos 0)
unfolding claim
claim_funded t i h = ground arith

pub claim_settled : (t : String) (i : MockIntent) → is_funded i.status ≡ false → claim t i ≡ pos 0
unfolding claim
claim_settled t i h = ground arith

claim_nonneg : (t : String) (i : MockIntent) → IsSound i → pos 0 ≤ℤ claim t i
unfolding claim
claim_nonneg t i h = ground arith

escrowed_nonneg : (t : String) (is : List MockIntent) → All IsSound is → pos 0 ≤ℤ escrowed t is
unfolding escrowed
escrowed_nonneg t [] h = omega arith
escrowed_nonneg t (i ∷ is) h = omega (int_laws, claim_nonneg t i h.0, escrowed_nonneg t is h.1)

pub claim-le-escrowed :
    (t : String) (id : ℕ) (i : MockIntent) (is : List MockIntent)
    → All IsSound is
    → intent_at id is ≡ some i
    → claim t i ≤ℤ escrowed t is
unfolding escrowed
claim-le-escrowed t zero i is a h = cc
claim-le-escrowed t (suc n) i [] a h = cc
claim-le-escrowed t (suc zero) i (x ∷ is) a h =
    rw (← some-injective x i h) (omega (int_laws, escrowed_nonneg t is a.1))
claim-le-escrowed t (suc (suc n)) i (x ∷ is) a h =
    omega (int_laws, claim_nonneg t x a.0, claim-le-escrowed t (suc n) i is a.1 h)

pub IsSound-intent_at :
    (id : ℕ) (i : MockIntent) (is : List MockIntent)
    → All IsSound is
    → intent_at id is ≡ some i
    → IsSound i
IsSound-intent_at zero i is a h = cc
IsSound-intent_at (suc n) i [] a h = cc
IsSound-intent_at (suc zero) i (x ∷ is) a h = rw (some-injective x i h) at a.0
IsSound-intent_at (suc (suc n)) i (x ∷ is) a h = IsSound-intent_at (suc n) i is a.1 h

pub All-write_at :
    (id : ℕ) (j : MockIntent) (is : List MockIntent)
    → All IsSound is
    → IsSound j
    → All IsSound (write_at id j is)
All-write_at zero j is a h = a
All-write_at (suc n) j [] a h = a
All-write_at (suc zero) j (x ∷ is) a h = (h, a.1)
All-write_at (suc (suc n)) j (x ∷ is) a h = (a.0, All-write_at (suc n) j is a.1 h)

pub All-append_one :
    (is : List MockIntent) (j : MockIntent)
    → All IsSound is
    → IsSound j
    → All IsSound (is ++ j ∷ [])
All-append_one [] j a h = (h, tt)
All-append_one (x ∷ is) j a h = (a.0, All-append_one is j a.1 h)

-- A withdrawal from the vault that settles the intent at `id`.
pub settle-covered :
    (t : String) (id : ℕ) (i j : MockIntent) (s s' : MockChain)
    → intent_at id s.intents ≡ some i
    → is_funded i.status ≡ true
    → is_funded j.status ≡ false
    → escrowed t s.intents ≤ℤ balance_of t vault s
    → balance_of t vault s'
      ≡ (if i.token == t then balance_of t vault s -ℤ i.amount else balance_of t vault s)
    → escrowed t (write_at id j s.intents) ≤ℤ balance_of t vault s'
settle-covered t id i j s s' h f g c b =
    let w = escrowed-write_at t id i j s.intents h in
    let none_left = claim_settled t j g in
    elim (Bool-cases (i.token == t)) [
      | inl same ↦
          (let claimed = claim_funded t i f in
            let b' : balance_of t vault s' ≡ balance_of t vault s -ℤ i.amount = rw same at b in
            let claimed' : claim t i ≡ i.amount = rw same at claimed in
            omega (
              int_laws,
              ap pos_part w,
              ap neg_part w,
              ap pos_part none_left,
              ap neg_part none_left,
              ap pos_part b',
              ap neg_part b',
              ap pos_part claimed',
              ap neg_part claimed',
            ))
      | inr other ↦
          (let claimed = claim_funded t i f in
            let b' : balance_of t vault s' ≡ balance_of t vault s = rw other at b in
            let claimed' : claim t i ≡ pos 0 = rw other at claimed in
            omega (
              int_laws,
              ap pos_part w,
              ap neg_part w,
              ap pos_part none_left,
              ap neg_part none_left,
              ap pos_part b',
              ap neg_part b',
              ap pos_part claimed',
              ap neg_part claimed',
            ))
    ]
