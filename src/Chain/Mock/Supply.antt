-- ===== src/Chain/Mock/Supply.antt =====
-- Tokens enter the in-process chain by deposits alone.
use lumo.Base.{
  ℤ, pos, ◌+ℤ◌, ◌≡◌, ap, pos_part, neg_part, Bool-cases, Option-cases, Result-cases, inl, inr, List,
  [], ◌∷◌, String, ◌==◌, if◌then◌else◌, arith, int_laws, ℕ,
}
use lumo.Models.{TxArgs}
use lumo.Chain.Interface.{Kind}
use lumo.Chain.Mock
use lumo.Chain.Mock.{
  MockChain, supply, supply-put, balance, balance_of, move, vault, intent_at, is_funded,
}
use lumo.Chain.Mock.Moves.{supply-move}
use lumo.Chain.Mock.Vault.{release-IsPayout, refund-IsPayout}
use lumo.Chain.Mock.Lifecycle.{Op, apply, run}

-- what one call, and a sequence of calls, deposits of a token
abbrev pub deposit : String → Op → ℤ
deposit t (Op.fund u a x) = if u == t then x else pos 0
deposit t _ = pos 0

pub deposits : String → List Op → ℤ
deposits t [] = pos 0
deposits t (o ∷ os) = deposit t o +ℤ deposits t os

supply-fund :
    (u a : String) (x : ℤ) (t : String) (s : MockChain)
    → supply t (Mock.fund u a x s).1.balances
      ≡ (if u == t then supply t s.balances +ℤ x else supply t s.balances)
unfolding Mock.fund
supply-fund u a x t s =
    let h = supply-put u a t (balance_of u a s +ℤ x) s.balances in
    elim (Bool-cases (u == t)) [
      | inl same ↦
          (let h' = rw same at h in rw same (omega (int_laws, ap pos_part h', ap neg_part h')))
      | inr other ↦
          (let h' = rw other at h in rw other (omega (int_laws, ap pos_part h', ap neg_part h')))
    ]

module _ (tx_hash_of : String → ℕ → String) where
  balances-create_intent :
      (a : TxArgs) (src : String) (s : MockChain)
      → (Mock.create_intent tx_hash_of a src s).1.balances
        ≡ (move a.token a.sme vault a.amount s).1.balances
  unfolding Mock.create_intent
  balances-create_intent a src s = elim (Result-cases (move a.token a.sme vault a.amount s).0) [
    | inl (u, moved) ↦ rw moved
    | inr (x, raised) ↦ rw raised
  ]

  balances-attest :
      (id : ℕ) (o : String) (k : Kind) (src : String) (s : MockChain)
      → (Mock.attest tx_hash_of id o k src s).1.balances ≡ s.balances
  unfolding Mock.attest
  balances-attest id o k src s = elim (Option-cases (intent_at id s.intents)) [
    | inl unknown ↦ rw unknown
    | inr (i, e) ↦ ground arith
  ]

  apply-supply :
      (o : Op) (s : MockChain) (t : String)
      → supply t (apply tx_hash_of o s).balances ≡ supply t s.balances +ℤ deposit t o
  unfolding apply
  apply-supply (Op.fund u a x) s t =
      rw supply-fund
        (elim (Bool-cases (u == t)) [ inl same ↦ rw same | inr other ↦ rw other (omega int_laws) ])
  apply-supply (Op.create_intent a src) s t =
      rw (balances-create_intent a src s, supply-move) (omega int_laws)
  apply-supply (Op.attest id o k src) s t = rw (balances-attest id o k src s) (omega int_laws)
  apply-supply (Op.release id src) s t = elim (release-IsPayout tx_hash_of id src s) [
    | inl same ↦ rw same (omega int_laws)
    | inr (i, e, f, moved, after) ↦ rw (after, supply-move) (omega int_laws)
  ]
  apply-supply (Op.refund id src) s t = elim (refund-IsPayout tx_hash_of id src s) [
    | inl same ↦ rw same (omega int_laws)
    | inr (i, e, f, moved, after) ↦ rw (after, supply-move) (omega int_laws)
  ]

  -- Whatever is called, and whatever raises, the supply of a token grows by what was deposited.
  pub run-supply :
      (os : List Op) (s : MockChain) (t : String)
      → supply t (run tx_hash_of os s).balances ≡ supply t s.balances +ℤ deposits t os
  unfolding run deposits
  run-supply [] s t = omega int_laws
  run-supply (o ∷ os) s t =
      let h = run-supply os (apply tx_hash_of o s) t in
      let k = apply-supply o s t in
      omega (int_laws, ap pos_part h, ap neg_part h, ap pos_part k, ap neg_part k)
