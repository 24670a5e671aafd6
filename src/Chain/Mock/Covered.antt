-- ===== src/Chain/Mock/Covered.antt =====
-- What each kind of write leaves of the vault's cover.
use lumo.Base.{
  ℕ, ℤ, pos, ◌+ℤ◌, ◌≤ℤ◌, ◌<ℤ◌, ◌≡◌, ◌≢◌, refl, sym, ◌+◌, ap, pos_part, neg_part, true, false,
  Bool-cases, Option, none, some, [], ◌∷◌, ◌++◌, String, ◌==◌, eq_iff, arith, int_laws, inl, inr,
  ok,
}
use lumo.Models.{TxArgs}
use lumo.Chain.Interface.{Kind}
use lumo.Chain.Mock.{
  MockChain, MockIntent, State, is_funded, intent_at, write_at, move, balance_of, vault, put,
  balance, entry-put, same_key,
}
use lumo.Chain.Mock.Moves.{balance-move}
use lumo.Chain.Mock.Solvency.{
  claim_funded, IsSolvent, claim, escrowed, settle-covered, All-write_at, escrowed-append,
  IsSound-intent_at, escrowed-write_at,
}

-- the chain after a payout: the balances moved, and the intent at `id` settled
abbrev pub after_payout : ℕ → MockIntent → State → MockChain → MockChain → MockChain
after_payout id i st s moved = record moved {
  intents = write_at id (record i { status = st }) s.intents;
  tx_count = s.tx_count + 1;
}

pub payout-IsSolvent :
    (id : ℕ) (i : MockIntent) (st : State) (to : String) (s : MockChain)
    → IsSolvent s
    → intent_at id s.intents ≡ some i
    → is_funded i.status ≡ true
    → is_funded st ≡ false
    → to ≢ vault
    → (move i.token vault to i.amount s).0 ≡ ok tt
    → IsSolvent (after_payout id i st s (move i.token vault to i.amount s).1)
payout-IsSolvent id i st to s v h f g ne m = record {
  covered = λ t.
      settle-covered t id i (record i { status = st }) s (move i.token vault to i.amount s).1 h f g
        (v.covered t) (balance-move i.token vault to i.amount s t vault (λ e. ne (sym e)) m);
  sound =
      All-write_at id (record i { status = st }) s.intents v.sound
        (IsSound-intent_at id i s.intents v.sound h);
}

pub same_claim :
    (t : String) (i : MockIntent) (k : Option Kind)
    → claim t (record i { attestation = k }) ≡ claim t i
unfolding claim
same_claim t i k = refl

pub attested-covered :
    (t : String) (id : ℕ) (i j : MockIntent) (s : MockChain)
    → intent_at id s.intents ≡ some i
    → claim t j ≡ claim t i
    → escrowed t s.intents ≤ℤ balance_of t vault s
    → escrowed t (write_at id j s.intents) ≤ℤ balance_of t vault s
attested-covered t id i j s e c h =
    let w = escrowed-write_at t id i j s.intents e in
    omega (int_laws, ap pos_part w, ap neg_part w, ap pos_part c, ap neg_part c)

pub funded-covered :
    (u t a : String) (x : ℤ) (s : MockChain)
    → pos 0 ≤ℤ x
    → escrowed u s.intents ≤ℤ balance_of u vault s
    → escrowed u s.intents ≤ℤ balance (u, vault) (put (t, a) (balance_of t a s +ℤ x) s.balances)
funded-covered u t a x s nonneg h = elim (Bool-cases (same_key (t, a) (u, vault))) [
  | inl same ↦
      (let et : t ≡ u = ground (arith, eq_iff t u) in
        let ea : a ≡ vault = ground (arith, eq_iff a vault) in
        rw (entry-put t a u vault (balance_of t a s +ℤ x) s.balances, same, et, ea)
          (omega int_laws))
  | inr other ↦ rw (entry-put t a u vault (balance_of t a s +ℤ x) s.balances, other) h
]

abbrev pub new_intent : TxArgs → MockIntent
new_intent a = record {
  sme = a.sme;
  supplier = a.supplier;
  token = a.token;
  amount = a.amount;
  request_hash = a.request_hash;
  deadline = a.deadline;
  status = State.funded;
  attestation = none;
}

pub created-covered :
    (t : String) (a : TxArgs) (s : MockChain)
    → pos 0 <ℤ a.amount
    → a.sme ≢ vault
    → (move a.token a.sme vault a.amount s).0 ≡ ok tt
    → escrowed t s.intents ≤ℤ balance_of t vault s
    → escrowed t (s.intents ++ new_intent a ∷ [])
      ≤ℤ balance_of t vault (move a.token a.sme vault a.amount s).1
created-covered t a s p ne moved h =
    let paid = balance-move a.token a.sme vault a.amount s t vault ne moved in
    let fresh = claim_funded t (new_intent a) refl in
    let grown = escrowed-append t s.intents (new_intent a) in
    let party : a.sme == vault ≡ false = ground (arith, eq_iff a.sme vault) in
    elim (Bool-cases (a.token == t)) [
      | inl same ↦
          (let paid' : balance_of t vault (move a.token a.sme vault a.amount s).1
                ≡ balance_of t vault s +ℤ a.amount =
              rw (same, party) at paid in
            let fresh' : claim t (new_intent a) ≡ a.amount = rw same at fresh in
            omega (
              int_laws,
              ap pos_part paid',
              ap neg_part paid',
              ap pos_part fresh',
              ap neg_part fresh',
              ap pos_part grown,
              ap neg_part grown,
            ))
      | inr other ↦
          (let paid' : balance_of t vault (move a.token a.sme vault a.amount s).1
                ≡ balance_of t vault s =
              rw other at paid in
            let fresh' : claim t (new_intent a) ≡ pos 0 = rw other at fresh in
            omega (
              int_laws,
              ap pos_part paid',
              ap neg_part paid',
              ap pos_part fresh',
              ap neg_part fresh',
              ap pos_part grown,
              ap neg_part grown,
            ))
    ]
