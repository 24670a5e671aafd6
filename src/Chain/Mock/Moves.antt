-- ===== src/Chain/Mock/Moves.antt =====
-- `_move` and the supply of a token, and what the vault holds after a move.
use lumo.Base.{
  ℤ, ◌+ℤ◌, ◌-ℤ◌, ◌≡◌, ◌≢◌, ap, pos_part, neg_part, true, false, String, ◌==◌, eq_iff, Bool,
  Option-cases, inl, inr, if◌then◌else◌, arith, int_laws, ok,
}
use lumo.Chain.Mock.{
  MockChain, move, balance_of, supply, supply-put, entry-put, put, entry, balance,
}

moved_sum :
    (c : Bool) (s s₁ s₂ old b amount : ℤ)
    → s₁ +ℤ old ≡ (if c then s +ℤ (old -ℤ amount) else s +ℤ old)
    → s₂ +ℤ b ≡ (if c then s₁ +ℤ (b +ℤ amount) else s₁ +ℤ b)
    → s₂ ≡ s
moved_sum true s s₁ s₂ old b amount h k =
    omega (int_laws, ap pos_part h, ap neg_part h, ap pos_part k, ap neg_part k)
moved_sum false s s₁ s₂ old b amount h k =
    omega (int_laws, ap pos_part h, ap neg_part h, ap pos_part k, ap neg_part k)

module _ (token src dst : String) (amount : ℤ) (s : MockChain) where
  -- A move neither makes nor destroys tokens, whether it succeeds or raises.
  pub supply-move :
      (t : String) → supply t (move token src dst amount s).1.balances ≡ supply t s.balances
  unfolding move
  supply-move t = elim (Option-cases (entry (token, src) s.balances)) [
    | inl missing ↦ ground arith
    | inr (old, e) ↦
        (let first = put (token, src) (old -ℤ amount) s.balances in
          ground (
            arith,
            supply-put token src t (old -ℤ amount) s.balances,
            supply-put token dst t (balance (token, dst) first +ℤ amount) first,
            moved_sum (token == t) (supply t s.balances) (supply t first)
                (supply t (put (token, dst) (balance (token, dst) first +ℤ amount) first)) old
                (balance (token, dst) first) amount,
          ))
  ]

  pub intents-move : (move token src dst amount s).1.intents ≡ s.intents
  unfolding move
  intents-move = ground arith

  pub tx_count-move : (move token src dst amount s).1.tx_count ≡ s.tx_count
  unfolding move
  tx_count-move = ground arith

  -- A move that raises has changed nothing.
  pub move_atomic : (move token src dst amount s).0 ≢ ok tt → (move token src dst amount s).1 ≡ s
  unfolding move
  move_atomic h = ground arith

  -- A successful move takes the amount from `src` and gives it to `dst`.
  pub balance-move :
      (t a : String)
      → src ≢ dst
      → (move token src dst amount s).0 ≡ ok tt
      → balance_of t a (move token src dst amount s).1 ≡ (
          if token == t
          then (if src == a
              then balance_of t a s -ℤ amount
              else if dst == a
              then balance_of t a s +ℤ amount
              else balance_of t a s)
          else balance_of t a s)
  unfolding move
  balance-move t a ne h = elim (Option-cases (entry (token, src) s.balances)) [
    | inl missing ↦ ground arith
    | inr (old, e) ↦
        (let first = put (token, src) (old -ℤ amount) s.balances in
          ground (
            arith,
            entry-put token src t a (old -ℤ amount) s.balances,
            entry-put token src token dst (old -ℤ amount) s.balances,
            entry-put token dst t a (balance (token, dst) first +ℤ amount) first,
            eq_iff token t,
            eq_iff src a,
            eq_iff dst a,
            eq_iff src dst,
            eq_iff token token,
          ))
  ]
