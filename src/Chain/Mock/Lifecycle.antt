-- ===== src/Chain/Mock/Lifecycle.antt =====
-- The life of an intent on the in-process chain, over any sequence of calls.
use lumo.Base.{
  ℕ, ℤ, ◌≡◌, ◌≢◌, ◌≤ℤ◌, ◌⊎◌, err, chain_error, false, some, List, [], ◌∷◌, String, arith,
  Option-cases, inl, inr, ok,
}
use lumo.Models.{TxArgs}
use lumo.Chain.Interface.{Kind, shipped, failed, InvokeResult}
use lumo.Chain.Mock
use lumo.Chain.Mock.{
  MockChain, MockIntent, State, is_funded, is_shipped, is_failed, intent_at, write_at, move,
  funded_intent, next_tx,
}
use lumo.Chain.Mock.Moves.{intents-move}
use lumo.Chain.Mock.Intents.{
  intent_at-write_at_self, intent_at-append, write_keeps_settled, attestation_at,
  attestation_at-append, write_keeps_attested,
}

pub data Op : Type 0 where
  fund : String → String → ℤ → Op
  create_intent : TxArgs → String → Op
  attest : ℕ → String → Kind → String → Op
  release refund : ℕ → String → Op

module _ (tx_hash_of : String → ℕ → String) where
  unfoldable pub apply : Op → MockChain → MockChain
  apply (Op.fund t a x) s = (Mock.fund t a x s).1
  apply (Op.create_intent a src) s = (Mock.create_intent tx_hash_of a src s).1
  apply (Op.attest id o k src) s = (Mock.attest tx_hash_of id o k src s).1
  apply (Op.release id src) s = (Mock.release tx_hash_of id src s).1
  apply (Op.refund id src) s = (Mock.refund tx_hash_of id src s).1

  -- Calls one after another; a call that raises leaves what it had written.
  unfoldable pub run : List Op → MockChain → MockChain
  unfolding apply
  run [] s = s
  run (o ∷ os) s = run os (apply o s)

  apply_keeps_settled :
      (o : Op) (s : MockChain) (id : ℕ) (i : MockIntent)
      → intent_at id s.intents ≡ some i
      → is_funded i.status ≡ false
      → intent_at id (apply o s).intents ≡ some i
  unfolding apply Mock.fund Mock.create_intent Mock.attest Mock.release Mock.refund move
  apply_keeps_settled (Op.fund t a x) s id i h g = ground arith
  apply_keeps_settled (Op.create_intent a src) s id i h g = grind (arith, intent_at-append)
  apply_keeps_settled (Op.attest j o k src) s id i h g = grind (arith, write_keeps_settled)
  apply_keeps_settled (Op.release j src) s id i h g = grind (arith, write_keeps_settled)
  apply_keeps_settled (Op.refund j src) s id i h g = grind (arith, write_keeps_settled)

  -- Once an intent is released or refunded, no sequence of calls changes it in any way.
  run_keeps_settled :
      (os : List Op) (s : MockChain) (id : ℕ) (i : MockIntent)
      → intent_at id s.intents ≡ some i
      → is_funded i.status ≡ false
      → intent_at id (run os s).intents ≡ some i
  unfolding run
  run_keeps_settled [] s id i h g = h
  run_keeps_settled (o ∷ os) s id i h g =
      run_keeps_settled os (apply o s) id i (apply_keeps_settled o s id i h g) g

  apply_keeps_attested :
      (o : Op) (s : MockChain) (id : ℕ) (k : Kind)
      → attestation_at id s.intents ≡ some k
      → attestation_at id (apply o s).intents ≡ some k
  unfolding apply Mock.fund Mock.create_intent Mock.attest Mock.release Mock.refund move
  apply_keeps_attested (Op.fund t a x) s id k h = h
  apply_keeps_attested (Op.create_intent a src) s id k h = grind (arith, attestation_at-append)
  apply_keeps_attested (Op.attest j o l src) s id k h =
      elim (Option-cases (intent_at j s.intents)) [
        | inl unknown ↦ ground arith
        | inr (old, e) ↦ ground (
          arith,
          write_keeps_attested j id old
              (record old { attestation = Mock.first_attestation old.attestation l }) k s.intents,
        )
      ]
  apply_keeps_attested (Op.release j src) s id k h = elim (Option-cases (intent_at j s.intents)) [
    | inl unknown ↦ ground arith
    | inr (old, e) ↦
        ground (
          arith,
          write_keeps_attested j id old (record old { status = State.released }) k s.intents,
        )
  ]
  apply_keeps_attested (Op.refund j src) s id k h = elim (Option-cases (intent_at j s.intents)) [
    | inl unknown ↦ ground arith
    | inr (old, e) ↦
        ground (
          arith,
          write_keeps_attested j id old (record old { status = State.refunded }) k s.intents,
        )
  ]

  -- The first attestation of an intent stands for good: no sequence of calls replaces it.
  run_keeps_attested :
      (os : List Op) (s : MockChain) (id : ℕ) (k : Kind)
      → attestation_at id s.intents ≡ some k
      → attestation_at id (run os s).intents ≡ some k
  unfolding run
  run_keeps_attested [] s id k h = h
  run_keeps_attested (o ∷ os) s id k h =
      run_keeps_attested os (apply o s) id k (apply_keeps_attested o s id k h)

  refund_shipped :
      (s : MockChain) (id : ℕ) (src : String)
      → attestation_at id s.intents ≡ some shipped
      → Mock.refund tx_hash_of id src s ≡ (err chain_error, s)
  unfolding Mock.refund move
  refund_shipped s id src h = elim (Option-cases (intent_at id s.intents)) [
    | inl unknown ↦ ground arith
    | inr (old, e) ↦ ground arith
  ]

  -- After a Shipped attestation, whatever is called and however the time passes, a refund of the
  -- intent is refused and changes nothing.
  shipped_blocks_refund :
      (os : List Op) (s : MockChain) (id : ℕ) (src : String) (later : ℤ)
      → attestation_at id s.intents ≡ some shipped
      → let s' = record (run os s) { now = later } in
        Mock.refund tx_hash_of id src s' ≡ (err chain_error, s')
  shipped_blocks_refund os s id src later h =
      refund_shipped (record (run os s) { now = later }) id src
        (run_keeps_attested os s id shipped h)

  -- A successful refund is of a funded intent that is not Shipped, and that is either attested
  -- Failed or past its deadline; the intent is Refunded then, with all else as it was.
  pub refund_requires :
      (s : MockChain) (id : ℕ) (src : String) (r : InvokeResult)
      → (Mock.refund tx_hash_of id src s).0 ≡ ok r
      → (i : MockIntent) × (intent_at id s.intents ≡ some i)
        × (i.status ≡ State.funded)
        × (i.attestation ≢ some shipped)
        × ((i.attestation ≡ some failed) ⊎ (i.deadline ≤ℤ s.now))
        × (intent_at id (Mock.refund tx_hash_of id src s).1.intents
            ≡ some (record i { status = State.refunded }))
  unfolding Mock.refund move
  refund_requires s id src r h = elim (Option-cases (intent_at id s.intents)) [
    | inl unknown ↦ ground arith
    | inr (i, e) ↦ (
      i,
      e,
      ground arith,
      λ g. ground arith,
      ground arith,
      ground (
        arith,
        intent_at-write_at_self id i (record i { status = State.refunded }) s.intents,
        intents-move i.token Mock.vault i.sme i.amount s,
      ),
    )
  ]
