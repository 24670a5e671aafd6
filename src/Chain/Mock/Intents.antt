-- ===== src/Chain/Mock/Intents.antt =====
-- The dict of intents: what a write at one id does to the others, to settled intents and to the
-- attestations.
use native.Mathlib.Decide.{ℕ_discrete}
use lumo.Base.{
  ℕ, zero, suc, ◌≡◌, ◌≢◌, refl, ap, ◌∙◌, true, false, Option, none, some, List, [], ◌∷◌, ◌++◌,
  arith, Option-cases, inl, inr,
}
use lumo.Chain.Interface.{Kind}
use lumo.Chain.Mock.{MockIntent, is_funded, intent_at, write_at}

pub intent_at-write_at_ne :
    (id j : ℕ) (i : MockIntent) (is : List MockIntent)
    → id ≢ j
    → intent_at j (write_at id i is) ≡ intent_at j is
intent_at-write_at_ne zero j i is h = refl
intent_at-write_at_ne (suc n) j i [] h = refl
intent_at-write_at_ne (suc zero) zero i (x ∷ is) h = refl
intent_at-write_at_ne (suc zero) (suc zero) i (x ∷ is) h = absurd (h refl)
intent_at-write_at_ne (suc zero) (suc (suc j)) i (x ∷ is) h = refl
intent_at-write_at_ne (suc (suc n)) zero i (x ∷ is) h = refl
intent_at-write_at_ne (suc (suc n)) (suc zero) i (x ∷ is) h = refl
intent_at-write_at_ne (suc (suc n)) (suc (suc j)) i (x ∷ is) h =
    intent_at-write_at_ne (suc n) (suc j) i is (λ e. h (ap suc e))

pub intent_at-write_at_self :
    (id : ℕ) (i j : MockIntent) (is : List MockIntent)
    → intent_at id is ≡ some i
    → intent_at id (write_at id j is) ≡ some j
intent_at-write_at_self zero i j is h = cc
intent_at-write_at_self (suc n) i j [] h = cc
intent_at-write_at_self (suc zero) i j (x ∷ is) h = refl
intent_at-write_at_self (suc (suc n)) i j (x ∷ is) h = intent_at-write_at_self (suc n) i j is h

pub intent_at-append :
    (id : ℕ) (i : MockIntent) (is js : List MockIntent)
    → intent_at id is ≡ some i
    → intent_at id (is ++ js) ≡ some i
intent_at-append zero i is js h = cc
intent_at-append (suc n) i [] js h = cc
intent_at-append (suc zero) i (x ∷ is) js h = h
intent_at-append (suc (suc n)) i (x ∷ is) js h = intent_at-append (suc n) i is js h

-- A write to a funded intent leaves a settled one alone.
pub write_keeps_settled :
    (id j : ℕ) (old new i : MockIntent) (is : List MockIntent)
    → intent_at id is ≡ some old
    → is_funded old.status ≡ true
    → intent_at j is ≡ some i
    → is_funded i.status ≡ false
    → intent_at j (write_at id new is) ≡ some i
write_keeps_settled id j old new i is h f k g = intent_at-write_at_ne id j new is distinct ∙ k
  where
    distinct : id ≢ j
    distinct e = absurd_of (rw e at h)
      where
        absurd_of : intent_at j is ≡ some old → ⊥
        absurd_of h' = ground arith

abbrev attestation_of : Option MockIntent → Option Kind
attestation_of none = none
attestation_of (some i) = i.attestation

abbrev pub attestation_at : ℕ → List MockIntent → Option Kind
attestation_at id is = attestation_of (intent_at id is)

pub attestation_at-append :
    (id : ℕ) (k : Kind) (is js : List MockIntent)
    → attestation_at id is ≡ some k
    → attestation_at id (is ++ js) ≡ some k
attestation_at-append id k is js h = elim (Option-cases (intent_at id is)) [
  | inl unknown ↦ ground arith
  | inr (i, e) ↦ rw (intent_at-append id i is js e) (ground arith)
]

pub write_keeps_attested :
    (id j : ℕ) (old new : MockIntent) (k : Kind) (is : List MockIntent)
    → intent_at id is ≡ some old
    → (old.attestation ≡ some k → new.attestation ≡ some k)
    → attestation_at j is ≡ some k
    → attestation_at j (write_at id new is) ≡ some k
write_keeps_attested id j old new k is h keep g = elim (ℕ_discrete id j) [
  | yes same ↦ rw (← same, intent_at-write_at_self id old new is h) (keep (ground arith))
  | no other ↦ rw (intent_at-write_at_ne id j new is other) g
]
