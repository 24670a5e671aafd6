-- ===== src/Chain/Mock/Payout.antt =====
-- A release that the rules allow succeeds.
use lumo.Base.{
  ℕ, ℤ, pos, ◌+ℤ◌, ◌≤ℤ◌, ◌<ℤ◌, ◌≡◌, refl, sym, ap, pos_part, neg_part, true, false, none, some,
  String, arith, Option-cases, inl, inr, ok, eq_iff, eq_refl, ◌==◌,
}
use lumo.Chain.Interface.{shipped}
use lumo.Chain.Mock
use lumo.Chain.Mock.{
  is_shipped, MockChain, MockIntent, State, intent_at, write_at, move, balance_of, vault, entry,
  is_funded,
}
use lumo.Chain.Mock.Moves.{balance-move, intents-move}
use lumo.Chain.Mock.Intents.{intent_at-write_at_self}
use lumo.Chain.Mock.Solvency.{IsSolvent, IsSound-intent_at, claim-le-escrowed, claim_funded, claim}

pub move_covered :
    (token src dst : String) (amount : ℤ) (s : MockChain)
    → pos 0 <ℤ amount
    → amount ≤ℤ balance_of token src s
    → (move token src dst amount s).0 ≡ ok tt
unfolding move
move_covered token src dst amount s p c = elim (Option-cases (entry (token, src) s.balances)) [
  | inl missing ↦ ground arith
  | inr (old, e) ↦ ground arith
]

module _ (tx_hash_of : String → ℕ → String) where
  -- On a solvent chain the release of a funded intent with a Shipped attestation succeeds: the
  -- supplier is paid the amount in full and the intent is Released.
  pub release_pays :
      (id : ℕ) (src : String) (i : MockIntent) (s : MockChain)
      → IsSolvent s
      → intent_at id s.intents ≡ some i
      → i.status ≡ State.funded
      → i.attestation ≡ some shipped
      → let (r, s') = Mock.release tx_hash_of id src s in
        (r ≡ ok (record { value = none; tx_hash = some (tx_hash_of "release" s'.tx_count) }))
        × (balance_of i.token i.supplier s' ≡ balance_of i.token i.supplier s +ℤ i.amount)
        × (intent_at id s'.intents ≡ some (record i { status = State.released }))
  unfolding Mock.release
  release_pays id src i s v e f g =
      let live : is_funded i.status ≡ true = rw f in
      let seen : is_shipped i.attestation ≡ true = rw g in
      let sound = IsSound-intent_at id i s.intents v.sound e in
      let claimed : claim i.token i ≡ i.amount = rw eq_refl at (claim_funded i.token i live) in
      let m = move_covered i.token vault i.supplier i.amount s sound.0 (
        omega (
          arith,
          ap pos_part claimed,
          ap neg_part claimed,
          v.covered i.token,
          claim-le-escrowed i.token id i s.intents v.sound e,
        )) in
      let apart : vault == i.supplier ≡ false = ground (arith, eq_iff vault i.supplier, sound.2) in
      rw (e, live, seen, m)
        (
          refl,
          (rw (eq_refl, apart, eq_refl) at
              (balance-move i.token vault i.supplier i.amount s i.token i.supplier
                (λ q. sound.2 (sym q)) m)),
          rw intents-move
              (intent_at-write_at_self id i (record i { status = State.released }) s.intents e),
        )
