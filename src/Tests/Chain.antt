-- ===== src/Tests/Chain.antt =====
-- The in-process chain (lumo/chain/mock_chain.py) on small inputs.
use lumo.Base.{
  ℕ, pos, ◌+ℤ◌, ◌≤ℤ◌, ◌≡◌, ◌≢◌, ◌⊎◌, refl, ◌==◌, eq_iff, false, ◌+ℤ◌, Option, none, some, List, [],
  ◌∷◌, String, ok, arith, int_laws, All,
}
use lumo.Models.{TxArgs}
use lumo.Chain.{Kind, shipped, failed, InvokeResult}
use lumo.Chain.Mock
use lumo.Chain.Mock.{MockChain, MockIntent, State, intent_at, balance_of, vault}
use lumo.Chain.Mock.Ledger.{supply}
use lumo.Chain.Mock.Lifecycle.{Op, run, refund_requires}
use lumo.Chain.Mock.Machine.{Life, run-Life}
use lumo.Chain.Mock.Solvency.{IsSolvent, escrowed}
use lumo.Chain.Mock.Vault.{IsFair, run-IsSolvent}
use lumo.Chain.Mock.Payout.{release_pays}
use lumo.Chain.Mock.Supply.{deposits, run-supply}

abbrev hash_of : String → ℕ → String
hash_of action n = action

differ : (a b : String) → a == b ≡ false → a ≢ b
differ a b h e = ground (arith, eq_iff a b)

abbrev genesis : MockChain
genesis = record { now = pos 0; intents = []; balances = []; tx_count = 0 }

abbrev order : TxArgs
order = record {
  sme = "SME";
  supplier = "SUP";
  token = "T";
  amount = pos 5;
  request_hash = "H1";
  deadline = pos 10;
}

abbrev escrow : List Op
escrow = Op.fund "T" "SME" (pos 9) ∷ Op.create_intent order "SME" ∷ []

abbrev delivered : List Op
delivered =
    Op.fund "T" "SME" (pos 9) ∷ Op.create_intent order "SME" ∷ Op.attest 1 "ORA" shipped "ORA" ∷ []

abbrev settled_ops : List Op
settled_ops = Op.release 1 "SUP" ∷ Op.refund 1 "SME" ∷ []

abbrev entry_of : State → Option Kind → MockIntent
entry_of st k = record {
  sme = "SME";
  supplier = "SUP";
  token = "T";
  amount = pos 5;
  request_hash = "H1";
  deadline = pos 10;
  status = st;
  attestation = k;
}

abbrev chain_at : State → Option Kind → MockChain
chain_at st k = record {
  now = pos 20;
  intents = entry_of st k ∷ [];
  balances = ("T", "SME", pos 4) ∷ ("T", vault, pos 5) ∷ [];
  tx_count = 1;
}

genesis-IsSolvent : IsSolvent genesis
unfolding escrowed
genesis-IsSolvent = record { covered = λ t. omega int_laws; sound = tt }

delivered-IsFair : All (IsFair hash_of) delivered
delivered-IsFair =
    (omega int_laws, ((omega int_laws, differ "SME" vault refl, differ "SUP" vault refl), (tt, tt)))

run-IsSolvent_result : IsSolvent (run hash_of delivered genesis)
run-IsSolvent_result = run-IsSolvent hash_of delivered genesis delivered-IsFair genesis-IsSolvent

run-IsSolvent_example : IsSolvent (run hash_of delivered genesis)
run-IsSolvent_example = run-IsSolvent hash_of delivered genesis delivered-IsFair genesis-IsSolvent

run-supply_example :
    supply "T" (run hash_of delivered genesis).balances
    ≡ supply "T" genesis.balances +ℤ deposits "T" delivered
run-supply_example = run-supply hash_of delivered genesis "T"

run-Life_example :
    (j : MockIntent) × (intent_at 1
        (run hash_of settled_ops (chain_at State.funded (some shipped))).intents
      ≡ some j)
    × Life (entry_of State.funded (some shipped)) j
run-Life_example =
    run-Life hash_of settled_ops (chain_at State.funded (some shipped)) 1
      (entry_of State.funded (some shipped)) refl

abbrev refund_result : InvokeResult
refund_result = record { value = none; tx_hash = some "refund" }

late_refund : (Mock.refund hash_of 1 "SME" (chain_at State.funded none)).0 ≡ ok refund_result
unfolding Mock.refund Mock.move
late_refund = refl

refund_requires_example :
    (i : MockIntent) × (intent_at 1 (chain_at State.funded none).intents ≡ some i)
    × (i.status ≡ State.funded)
    × (i.attestation ≢ some shipped)
    × ((i.attestation ≡ some failed) ⊎ (i.deadline ≤ℤ (chain_at State.funded none).now))
    × (intent_at 1 (Mock.refund hash_of 1 "SME" (chain_at State.funded none)).1.intents
        ≡ some (record i { status = State.refunded }))
refund_requires_example =
    refund_requires hash_of (chain_at State.funded none) 1 "SME" refund_result late_refund

delivered_entry :
    intent_at 1 (run hash_of delivered genesis).intents
    ≡ some (entry_of State.funded (some shipped))
unfolding run Mock.fund Mock.create_intent Mock.attest Mock.move ◌+ℤ◌
delivered_entry = refl

release_pays_example :
    let s = run hash_of delivered genesis in
    let (r, s') = Mock.release hash_of 1 "SUP" s in
    (r ≡ ok (record { value = none; tx_hash = some (hash_of "release" s'.tx_count) }))
    × (balance_of "T" "SUP" s' ≡ balance_of "T" "SUP" s +ℤ pos 5)
    × (intent_at 1 s'.intents ≡ some (entry_of State.released (some shipped)))
release_pays_example =
    release_pays hash_of 1 "SUP" (entry_of State.funded (some shipped))
      (run hash_of delivered genesis) run-IsSolvent_result delivered_entry refl refl
