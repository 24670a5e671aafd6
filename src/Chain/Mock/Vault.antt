-- ===== src/Chain/Mock/Vault.antt =====
-- Every call keeps the vault solvent, and so a release that the rules allow succeeds.
use lumo.Base.{
  Result-cases, ℕ, ℤ, pos, ◌≤ℤ◌, ◌<ℤ◌, ◌≡◌, ◌≢◌, refl, ◌⊎◌, Result, true, false, Bool-cases, some,
  List, [], ◌∷◌, String, ◌&&◌, arith, Option-cases, inl, inr, ok, All, ltb_ℤ, not,
}
use lumo.Models.{TxArgs}
use lumo.Chain.Interface.{Kind, InvokeResult}
use lumo.Chain.Mock
use lumo.Chain.Mock.{
  MockChain, MockIntent, State, is_funded, is_shipped, is_failed, intent_at, write_at, move,
  balance_of, funded_intent, next_tx, vault, entry, put, balance, entry-put, same_key,
}
use lumo.Chain.Mock.Moves.{intents-move, tx_count-move, move_atomic}
use lumo.Chain.Mock.Lifecycle.{Op, apply, run}
use lumo.Chain.Mock.Solvency.{IsSolvent, All-write_at, All-append_one, IsSound-intent_at}
use lumo.Chain.Mock.Covered.{
  after_payout, payout-IsSolvent, same_claim, attested-covered, funded-covered, new_intent,
  created-covered,
}

module _ (tx_hash_of : String → ℕ → String) where
  -- A release, or a refund, does nothing, or pays out a funded intent.
  abbrev pub IsPayout :
      (ℕ → String → MockChain → Result InvokeResult × MockChain)
      → State
      → (MockIntent → String)
      → Type 0
  IsPayout call st to =
      (id : ℕ) (src : String) (s : MockChain)
      → ((call id src s).1 ≡ s)
        ⊎ ((i : MockIntent) × (intent_at id s.intents ≡ some i)
            × (is_funded i.status ≡ true)
            × ((move i.token vault (to i) i.amount s).0 ≡ ok tt)
            × ((call id src s).1 ≡ after_payout id i st s (move i.token vault (to i) i.amount s).1))

  pub release-IsPayout : IsPayout (Mock.release tx_hash_of) State.released (λ i. i.supplier)
  unfolding Mock.release
  release-IsPayout id src s = elim (Option-cases (intent_at id s.intents)) [
    | inl unknown ↦ inl (ground arith)
    | inr (i, e) ↦ elim (Bool-cases (is_funded i.status && is_shipped i.attestation)) [
      | inl payable ↦
          (let f : is_funded i.status ≡ true = ground arith in
            let g : is_shipped i.attestation ≡ true = ground arith in
            elim (Result-cases (move i.token vault i.supplier i.amount s).0) [
              | inl (u, moved) ↦ inr (
                i,
                e,
                f,
                moved,
                rw (e, f, g, moved)
                    (ground (
                      arith,
                      intents-move i.token vault i.supplier i.amount s,
                      tx_count-move i.token vault i.supplier i.amount s,
                    )),
              )
              | inr (x, raised) ↦ inl (
                  rw (e, f, g, raised)
                    (ground (arith, move_atomic i.token vault i.supplier i.amount s (λ h. cc))))
            ])
      | inr shut ↦ inl (ground arith)
    ]
  ]

  pub refund-IsPayout : IsPayout (Mock.refund tx_hash_of) State.refunded (λ i. i.sme)
  unfolding Mock.refund
  refund-IsPayout id src s = elim (Option-cases (intent_at id s.intents)) [
    | inl unknown ↦ inl (ground arith)
    | inr (i, e) ↦
        elim (Bool-cases (
          is_funded i.status
          && (not (is_shipped i.attestation)
              && not (not (is_failed i.attestation) && ltb_ℤ s.now i.deadline)))) [
                | inl payable ↦
                    (let f : is_funded i.status ≡ true = ground arith in
                      let g : is_shipped i.attestation ≡ false = ground arith in
                      let k : (not (is_failed i.attestation) && ltb_ℤ s.now i.deadline) ≡ false =
                        ground arith in
                      elim (Result-cases (move i.token vault i.sme i.amount s).0) [
                        | inl (u, moved) ↦ inr (
                          i,
                          e,
                          f,
                          moved,
                          rw (e, f, g, k, moved)
                              (ground (
                                arith,
                                intents-move i.token vault i.sme i.amount s,
                                tx_count-move i.token vault i.sme i.amount s,
                              )),
                        )
                        | inr (x, raised) ↦ inl (
                            rw (e, f, g, k, raised)
                              (ground
                                (arith, move_atomic i.token vault i.sme i.amount s (λ h. cc))))
                      ])
                | inr shut ↦ inl (ground arith)
              ]
  ]

  release-IsSolvent :
      (id : ℕ) (src : String) (s : MockChain)
      → IsSolvent s
      → IsSolvent (Mock.release tx_hash_of id src s).1
  release-IsSolvent id src s v = elim (release-IsPayout id src s) [
    | inl same ↦ rw same v
    | inr (i, e, f, moved, after) ↦ rw after (
        payout-IsSolvent id i State.released i.supplier s v e f refl
          (IsSound-intent_at id i s.intents v.sound e).2 moved)
  ]

  refund-IsSolvent :
      (id : ℕ) (src : String) (s : MockChain)
      → IsSolvent s
      → IsSolvent (Mock.refund tx_hash_of id src s).1
  refund-IsSolvent id src s v = elim (refund-IsPayout id src s) [
    | inl same ↦ rw same v
    | inr (i, e, f, moved, after) ↦ rw after (
        payout-IsSolvent id i State.refunded i.sme s v e f refl
          (IsSound-intent_at id i s.intents v.sound e).1 moved)
  ]

  pub attest-IsSolvent :
      (id : ℕ) (o : String) (k : Kind) (src : String) (s : MockChain)
      → IsSolvent s
      → IsSolvent (Mock.attest tx_hash_of id o k src s).1
  unfolding Mock.attest
  attest-IsSolvent id o k src s v = elim (Option-cases (intent_at id s.intents)) [
    | inl unknown ↦ rw unknown v
    | inr (i, e) ↦ elim (Bool-cases (is_funded i.status)) [
      | inl open_intent ↦
          (let j : MockIntent = record i { attestation = Mock.first_attestation i.attestation k } in
            rw (e, open_intent)
              (record {
                covered = λ t.
                    attested-covered t id i j s e
                      (same_claim t i (Mock.first_attestation i.attestation k)) (v.covered t);
                sound =
                    All-write_at id j s.intents v.sound
                      (IsSound-intent_at id i s.intents v.sound e);
              }))
      | inr settled ↦ rw (e, settled) v
    ]
  ]

  fund-IsSolvent :
      (t a : String) (x : ℤ) (s : MockChain)
      → pos 0 ≤ℤ x
      → IsSolvent s
      → IsSolvent (Mock.fund t a x s).1
  unfolding Mock.fund
  fund-IsSolvent t a x s nonneg v = record {
    covered = λ u. funded-covered u t a x s nonneg (v.covered u);
    sound = v.sound;
  }

  pub create_intent-IsSolvent :
      (a : TxArgs) (src : String) (s : MockChain)
      → pos 0 <ℤ a.amount
      → a.sme ≢ vault
      → a.supplier ≢ vault
      → IsSolvent s
      → IsSolvent (Mock.create_intent tx_hash_of a src s).1
  unfolding Mock.create_intent
  create_intent-IsSolvent a src s p ne ne' v =
      elim (Result-cases (move a.token a.sme vault a.amount s).0) [
        | inl (u, moved) ↦ rw moved (record {
          covered = λ t. rw intents-move (created-covered t a s p ne moved (v.covered t));
          sound = rw intents-move (All-append_one s.intents (new_intent a) v.sound (p, ne, ne'));
        })
        | inr (x, raised) ↦ rw (raised, move_atomic a.token a.sme vault a.amount s (λ h. cc)) v
      ]

  -- Deposits are not negative, and an intent has a positive amount and parties beside the vault.
  abbrev pub IsFair : Op → Type 0
  IsFair (Op.fund t a x) = pos 0 ≤ℤ x
  IsFair (Op.create_intent a src) = (pos 0 <ℤ a.amount) × (a.sme ≢ vault) × (a.supplier ≢ vault)
  IsFair _ = Unit

  apply-IsSolvent :
      (o : Op) (s : MockChain) → IsFair o → IsSolvent s → IsSolvent (apply tx_hash_of o s)
  unfolding apply
  apply-IsSolvent (Op.fund t a x) s f v = fund-IsSolvent t a x s f v
  apply-IsSolvent (Op.create_intent a src) s f v = create_intent-IsSolvent a src s f.0 f.1 f.2 v
  apply-IsSolvent (Op.attest id o k src) s f v = attest-IsSolvent id o k src s v
  apply-IsSolvent (Op.release id src) s f v = release-IsSolvent id src s v
  apply-IsSolvent (Op.refund id src) s f v = refund-IsSolvent id src s v

  -- A solvent chain, whose vault covers every funded intent, is solvent after any sequence of
  -- calls, raising ones included, if no deposit is negative and every intent that is asked for has
  -- a positive amount and parties beside the vault.
  pub run-IsSolvent :
      (os : List Op) (s : MockChain) → All IsFair os → IsSolvent s → IsSolvent (run tx_hash_of os s)
  unfolding run
  run-IsSolvent [] s f v = v
  run-IsSolvent (o ∷ os) s f v =
      run-IsSolvent os (apply tx_hash_of o s) f.1 (apply-IsSolvent o s f.0 v)
