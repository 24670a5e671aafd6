-- ===== src/Chain/Mock/Machine.antt =====
-- The life of an escrowed intent as a state machine, and that the in-process chain follows it.
use native.Mathlib.Decide.{ℕ_discrete}
use lumo.Base.{
  ℕ, ◌≡◌, ◌≢◌, refl, ap, sym, ◌∙◌, subst, inl, inr, true, false, Option, none, some, List, [], ◌∷◌,
  String, arith, Option-cases, Bool-cases, Result-cases,
}
use lumo.Chain.Interface.{Kind, shipped}
use lumo.Chain.Mock
use lumo.Chain.Mock.{
  MockChain, MockIntent, State, is_funded, is_shipped, is_failed, intent_at, write_at, move,
}
use lumo.Chain.Mock.Moves.{intents-move}
use lumo.Chain.Mock.Intents.{intent_at-write_at_ne, intent_at-write_at_self, intent_at-append}
use lumo.Chain.Mock.Lifecycle.{Op, apply, run}
use lumo.Chain.Mock.Vault.{release-IsPayout, refund-IsPayout}

-- What may happen to an intent: the first attestation, a release once the shipment is attested,
-- and a refund unless it is.
pub data Change : MockIntent → MockIntent → Type 0 where
  attested :
      (i : MockIntent) (k : Kind)
      → i.status ≡ State.funded
      → i.attestation ≡ none
      → Change i (record i { attestation = some k })
  released :
      (i : MockIntent)
      → i.status ≡ State.funded
      → i.attestation ≡ some shipped
      → Change i (record i { status = State.released })
  refunded :
      (i : MockIntent)
      → i.status ≡ State.funded
      → i.attestation ≢ some shipped
      → Change i (record i { status = State.refunded })

-- Any number of changes, one after another.
pub data Life : MockIntent → MockIntent → Type 0 where
  same : {i : MockIntent} → Life i i
  next : {i j k : MockIntent} → Change i j → Life j k → Life i k

Life-trans : {i j k : MockIntent} → Life i j → Life j k → Life i k
Life-trans same m = m
Life-trans (next c l) m = next c (Life-trans l m)

-- what has become of an intent
abbrev Lives : ℕ → MockIntent → List MockIntent → Type 0
Lives id i is = (j : MockIntent) × (intent_at id is ≡ some j) × Life i j

-- A write of a changed intent at `j` is a change there, and elsewhere none.
written-Lives :
    (j id : ℕ) (old new i : MockIntent) (is : List MockIntent)
    → intent_at j is ≡ some old
    → Life old new
    → intent_at id is ≡ some i
    → Lives id i (write_at j new is)
written-Lives j id old new i is e c h = elim (ℕ_discrete j id) [
  | yes here ↦
      (let at_id : intent_at id is ≡ some old = subst (λ x. intent_at x is ≡ some old) here e in
        let found : i ≡ old = ground arith in
        (
          new,
          subst (λ x. intent_at x (write_at j new is) ≡ some new) here
              (intent_at-write_at_self j old new is e),
          subst (λ x. Life x new) (sym found) c,
        ))
  | no other ↦ (i, intent_at-write_at_ne j id new is other ∙ h, same)
]

attest_changes :
    (i : MockIntent) (k : Kind) (a : Option Kind)
    → i.status ≡ State.funded
    → i.attestation ≡ a
    → Life i (record i { attestation = Mock.first_attestation a k })
attest_changes i k none f e = next (attested i k f e) same
attest_changes i k (some l) f e =
    subst (λ x. Life i x) (ap (λ a. record i { attestation = a }) e) same

is_funded_lem : (st : State) → is_funded st ≡ true → st ≡ State.funded
is_funded_lem st h = ground arith

is_shipped_lem : (a : Option Kind) → is_shipped a ≡ true → a ≡ some shipped
is_shipped_lem a h = ground arith

not_shipped : (a : Option Kind) → is_shipped a ≡ false → a ≢ some shipped
not_shipped a h e = ground arith

module _ (tx_hash_of : String → ℕ → String) where
  attest-Lives :
      (j : ℕ) (o : String) (k : Kind) (src : String) (s : MockChain) (id : ℕ) (i : MockIntent)
      → intent_at id s.intents ≡ some i
      → Lives id i (Mock.attest tx_hash_of j o k src s).1.intents
  unfolding Mock.attest
  attest-Lives j o k src s id i h = elim (Option-cases (intent_at j s.intents)) [
    | inl unknown ↦ rw unknown (i, h, same)
    | inr (old, e) ↦ elim (Bool-cases (is_funded old.status)) [
      | inl funded ↦
          rw (e, funded)
            (written-Lives j id old
              (record old { attestation = Mock.first_attestation old.attestation k }) i s.intents e
              (attest_changes old k old.attestation (is_funded_lem old.status funded) refl) h)
      | inr settled ↦ rw (e, settled) (i, h, same)
    ]
  ]

  create_intent-Lives :
      (a : Mock.TxArgs) (src : String) (s : MockChain) (id : ℕ) (i : MockIntent)
      → intent_at id s.intents ≡ some i
      → Lives id i (Mock.create_intent tx_hash_of a src s).1.intents
  unfolding Mock.create_intent
  create_intent-Lives a src s id i h =
      elim (Result-cases (move a.token a.sme Mock.vault a.amount s).0) [
        | inl (u, moved) ↦ rw (moved, intents-move) (i, intent_at-append id i s.intents _ h, same)
        | inr (x, raised) ↦ rw (raised, intents-move) (i, h, same)
      ]

  refused_release :
      (j : ℕ) (src : String) (old : MockIntent) (s : MockChain)
      → intent_at j s.intents ≡ some old
      → is_shipped old.attestation ≡ false
      → (Mock.release tx_hash_of j src s).1 ≡ s
  unfolding Mock.release
  refused_release j src old s e no_ = ground arith

  refused_refund :
      (j : ℕ) (src : String) (old : MockIntent) (s : MockChain)
      → intent_at j s.intents ≡ some old
      → is_shipped old.attestation ≡ true
      → (Mock.refund tx_hash_of j src s).1 ≡ s
  unfolding Mock.refund
  refused_refund j src old s e yes_ = ground arith

  unchanged :
      (s t : MockChain) (id : ℕ) (i : MockIntent)
      → t ≡ s
      → intent_at id s.intents ≡ some i
      → Lives id i t.intents
  unchanged s t id i e h = (i, ap (λ x. intent_at id x.intents) e ∙ h, same)

  release-Lives :
      (j : ℕ) (src : String) (s : MockChain) (id : ℕ) (i : MockIntent)
      → intent_at id s.intents ≡ some i
      → Lives id i (Mock.release tx_hash_of j src s).1.intents
  release-Lives j src s id i h = elim (release-IsPayout tx_hash_of j src s) [
    | inl still ↦ unchanged s _ id i still h
    | inr (old, e, funded, moved, after) ↦ elim (Bool-cases (is_shipped old.attestation)) [
      | inr no_ ↦ unchanged s _ id i (refused_release j src old s e no_) h
      | inl yes_ ↦
          subst (λ (x : MockChain). Lives id i x.intents) (sym after)
            (written-Lives j id old (record old { status = State.released }) i s.intents e
              (next
                (released old (is_funded_lem old.status funded)
                  (is_shipped_lem old.attestation yes_))
                same)
              h)
    ]
  ]

  refund-Lives :
      (j : ℕ) (src : String) (s : MockChain) (id : ℕ) (i : MockIntent)
      → intent_at id s.intents ≡ some i
      → Lives id i (Mock.refund tx_hash_of j src s).1.intents
  refund-Lives j src s id i h = elim (refund-IsPayout tx_hash_of j src s) [
    | inl still ↦ unchanged s _ id i still h
    | inr (old, e, funded, moved, after) ↦ elim (Bool-cases (is_shipped old.attestation)) [
      | inl yes_ ↦ unchanged s _ id i (refused_refund j src old s e yes_) h
      | inr no_ ↦
          subst (λ (x : MockChain). Lives id i x.intents) (sym after)
            (written-Lives j id old (record old { status = State.refunded }) i s.intents e
              (next
                (refunded old (is_funded_lem old.status funded) (not_shipped old.attestation no_))
                same)
              h)
    ]
  ]

  apply-Lives :
      (o : Op) (s : MockChain) (id : ℕ) (i : MockIntent)
      → intent_at id s.intents ≡ some i
      → Lives id i (apply tx_hash_of o s).intents
  unfolding apply Mock.fund
  apply-Lives (Op.fund t a x) s id i h = (i, h, same)
  apply-Lives (Op.create_intent a src) s id i h = create_intent-Lives a src s id i h
  apply-Lives (Op.attest j o k src) s id i h = attest-Lives j o k src s id i h
  apply-Lives (Op.release j src) s id i h = release-Lives j src s id i h
  apply-Lives (Op.refund j src) s id i h = refund-Lives j src s id i h

  -- Over any sequence of calls, raising ones included, an intent of the chain is never lost, and
  -- changes only the way that the state machine `Change` allows: its first attestation, a release
  -- when it is attested as shipped, a refund when it is not; once settled, nothing.
  pub run-Life :
      (os : List Op) (s : MockChain) (id : ℕ) (i : MockIntent)
      → intent_at id s.intents ≡ some i
      → (j : MockIntent) × (intent_at id (run tx_hash_of os s).intents ≡ some j) × Life i j
  unfolding run
  run-Life [] s id i h = (i, h, same)
  run-Life (o ∷ os) s id i h =
      let (j, e, first) = apply-Lives o s id i h in
      let (k, last_, rest) = run-Life os (apply tx_hash_of o s) id j e in
      (k, last_, Life-trans first rest)
