-- ===== src/Flow/Paid/Escrow.antt =====
-- An escrow of the in-process chain on its way: created, attested as shipped, released.
use lumo.Base.{
  ℕ, suc, pos, ◌+◌, ◌≤ℤ◌, ◌<ℤ◌, ◌≡◌, ◌≢◌, refl, ap, ◌∙◌, false, none, some, List, [], ◌∷◌, ◌++◌,
  String, ◌==◌, eq_iff, eq_refl, length, ok, arith,
}
use lumo.Models.{TxArgs}
use lumo.Chain.{shipped}
use lumo.Chain.Mock
use lumo.Chain.Mock.{
  MockChain, MockIntent, State, is_funded, intent_at, write_at, move, balance_of, vault,
}
use lumo.Chain.Mock.Moves.{balance-move, intents-move, tx_count-move}
use lumo.Chain.Mock.Intents.{intent_at-write_at_self}
use lumo.Chain.Mock.Solvency.{IsSolvent}
use lumo.Chain.Mock.Covered.{new_intent}
use lumo.Chain.Mock.Vault.{create_intent-IsSolvent, attest-IsSolvent}
use lumo.Chain.Mock.Payout.{move_covered}

-- The chain holds the intent at the id, and its vault covers what is in escrow.
pub record IsHeld (n : ℕ) (i : MockIntent) (c : MockChain) : Type 0 where
  pub solvent : IsSolvent c
  pub held : intent_at n c.intents ≡ some i

intent_at-end :
    (is : List MockIntent) (i : MockIntent) → intent_at (suc (length is)) (is ++ i ∷ []) ≡ some i
intent_at-end [] i = refl
intent_at-end (x ∷ is) i = intent_at-end is i

intent_at-last :
    (is : List MockIntent) (i : MockIntent) → intent_at (length is + 1) (is ++ i ∷ []) ≡ some i
intent_at-last is i =
    let e : length is + 1 ≡ suc (length is) = omega arith in
    ap (λ n. intent_at n (is ++ i ∷ [])) e ∙ intent_at-end is i

-- The parties and the amount are in order, and the payer can pay.
pub record IsPossible (a : TxArgs) (c : MockChain) : Type 0 where
  pub positive : pos 0 <ℤ a.amount
  pub payer : a.sme ≢ vault
  pub payee : a.supplier ≢ vault
  pub apart : a.supplier ≢ a.sme
  pub affordable : a.amount ≤ℤ balance_of a.token a.sme c

module _ (tx_hash_of : String → ℕ → String) where
  pub create-IsHeld :
      (a : TxArgs) (src : String) (c : MockChain)
      → IsSolvent c
      → IsPossible a c
      → let (r, c') = Mock.create_intent tx_hash_of a src c in
        (r
          ≡ ok (record {
            value = some (length c.intents + 1);
            tx_hash = some (tx_hash_of "create_intent" (c.tx_count + 1));
          }))
        × IsHeld (length c.intents + 1) (new_intent a) c'
        × (balance_of a.token a.supplier c' ≡ balance_of a.token a.supplier c)
  unfolding Mock.create_intent
  create-IsHeld a src c v p =
      let m = move_covered a.token a.sme vault a.amount c p.positive p.affordable in
      let solvent = create_intent-IsSolvent tx_hash_of a src c p.positive p.payer p.payee v in
      let not_payer : a.sme == a.supplier ≡ false =
        ground (arith, eq_iff a.sme a.supplier, p.apart) in
      let not_vault : vault == a.supplier ≡ false =
        ground (arith, eq_iff vault a.supplier, p.payee) in
      let paid = balance-move a.token a.sme vault a.amount c a.token a.supplier p.payer m in
      (
        rw (m, intents-move, tx_count-move) refl,
        record {
          solvent = solvent;
          held = rw (m, intents-move) (intent_at-last c.intents (new_intent a));
        },
        rw m (rw (eq_refl, not_payer, not_vault) at paid),
      )

  -- the chain after the attestation
  abbrev attested : ℕ → MockIntent → MockChain → MockChain
  attested n i c = record c {
    intents = write_at n (record i { attestation = some shipped }) c.intents;
    tx_count = c.tx_count + 1;
  }

  attest-attested :
      (n : ℕ) (o src : String) (i : MockIntent) (c : MockChain)
      → i.status ≡ State.funded
      → i.attestation ≡ none
      → intent_at n c.intents ≡ some i
      → Mock.attest tx_hash_of n o shipped src c ≡ (
        ok (record { value = none; tx_hash = some (tx_hash_of "attest_Shipped" (c.tx_count + 1)) }),
        attested n i c,
      )
  unfolding Mock.attest
  attest-attested n o src i c f g h = rw (h, f, g) refl

  pub attest-IsHeld :
      (n : ℕ) (o src : String) (i : MockIntent) (c : MockChain)
      → i.status ≡ State.funded
      → i.attestation ≡ none
      → IsHeld n i c
      → let (r, c') = Mock.attest tx_hash_of n o shipped src c in
        (r
          ≡ ok (record {
            value = none;
            tx_hash = some (tx_hash_of "attest_Shipped" (c.tx_count + 1));
          }))
        × IsHeld n (record i { attestation = some shipped }) c'
        × ((t a : String) → balance_of t a c' ≡ balance_of t a c)
  attest-IsHeld n o src i c f g h =
      let e = attest-attested n o src i c f g h.held in
      (
        ap (λ q. q.0) e,
        record {
          solvent = attest-IsSolvent tx_hash_of n o shipped src c h.solvent;
          held =
              ap (λ q. intent_at n q.1.intents) e
              ∙ intent_at-write_at_self n i (record i { attestation = some shipped }) c.intents
                  h.held;
        },
        λ t a. ap (λ q. balance_of t a q.1) e,
      )
