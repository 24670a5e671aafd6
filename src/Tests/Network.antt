-- ===== src/Tests/Network.antt =====
-- The adapters that reach a network, on networks that are a few lines each.
use lumo.Base.{
  ℕ, ℤ, pos, ◌+ℤ◌, ◌+◌, ltb_ℤ, ◌≡◌, ◌⊎◌, ◌↔◌, refl, Bool, true, false, not, Option, none, some, [],
  ◌∷◌, String, ◌==◌, if◌then◌else◌,
}
use lumo.Models.{TxArgs}
use lumo.Chain.{shipped}
use lumo.Chain.Soroban.{Cli, SorobanClient}
use lumo.Chain.Soroban.Operation.{attests, perform, request}
use lumo.Chain.Soroban.Told.{Told, traced_cli, perform-Told}
use lumo.Chain.SmartAccount.{Rpc, Simulation, SmartAccountClient, create_intent, pending, success}
use lumo.Chain.SmartAccount.Trace.{traced_rpc, in_flight_from, reported}
use lumo.Chain.SmartAccount.Reported.{create_intent-reported}
use lumo.Scripts.Enforcement.{Sdk, check_auth_verdict, main}
use lumo.Scripts.Enforcement.Status.{none_left, tried, main_lem}

abbrev cli : Cli ℕ
cli = record {
  run = λ cmd n. (some (record { returncode = pos 0; stdout = ""; stderr = "" }), n);
  strip = λ s. s;
  show = λ n. "7";
  loads = λ s. none;
  dumps = λ j. "\"Shipped\"";
  tx_hashes = λ s. [];
  int_of = λ j. none;
}

abbrev client : SorobanClient
client = record { escrow_id = "CESCROW"; network = "local"; source = none }

perform-Told_example :
    Told
      (request cli client "oracle" (attests 7 "ORA" shipped (some "oracle")))
      (0, [])
      (perform (traced_cli cli) client (attests 7 "ORA" shipped (some "oracle")) (0, [])).1
perform-Told_example =
    perform-Told cli client (attests 7 "ORA" shipped (some "oracle")) "oracle" (0, []) refl

abbrev simulated : Simulation
simulated = record {
  error = none;
  results = ("entry" ∷ []) ∷ [];
  transaction_data = "data";
  min_resource_fee = 5;
}

-- keys, accounts, transactions and entries are texts
abbrev rpc : Rpc ℕ String String String String
rpc = record {
  secret = λ k n. (some "S", n);
  from_secret = λ s. some s;
  public_key = λ k. k;
  load_account = λ k n. (some k, n);
  build = λ account contract a. some "tx";
  simulate_transaction = λ tx n. (some simulated, n);
  latest_ledger = λ n. (some n, n);
  entry_from_xdr = λ x. some x;
  address = λ e. some "CSME";
  authorize_entry = λ k e n. some e;
  with_auth = λ es tx. tx;
  with_resources = λ data_ fee tx. some tx;
  sign = λ k tx. tx;
  send_transaction = λ tx n. (some (record { status = pending; hash = "HASH" }), n);
  poll_transaction = λ h n. (some (record { status = success; result_meta_xdr = "M" }), n);
  return_value = λ m. none;
}

abbrev smart_account : SmartAccountClient
smart_account = record {
  escrow_id = "CESCROW";
  smart_account = "CSME";
  owner_source = "owner";
  network = "testnet";
}

abbrev payment : TxArgs
payment = record {
  sme = "CSME";
  supplier = "SUP";
  token = "T";
  amount = pos 5;
  request_hash = "H1";
  deadline = pos 3600;
}

create_intent-reported_example :
    in_flight_from [] (create_intent (traced_rpc rpc) smart_account payment (0, [])).1.1
    ≡ reported (create_intent (traced_rpc rpc) smart_account payment (0, [])).0
create_intent-reported_example = create_intent-reported rpc smart_account payment 0

-- An account with a cap of 500000000 that may fund ESCROW alone; the world counts simulations.
abbrev refusal : String → ℤ → Option String
refusal to amount =
    if not (to == "ESCROW")
    then some ", #6)"
    else if ltb_ℤ (pos 500000000) amount
    then some ", #2)"
    else none

abbrev sdk : Sdk ℕ String ((String × ℤ) × Bool) String
sdk = record {
  load_account = λ n. (some "SOURCE", n);
  build = λ account to amount. some ((to, amount), false);
  simulate_transaction = λ tx n.
      (some (record simulated { error = if tx.1 then refusal tx.0.0 tx.0.1 else none }), n + 1);
  latest_ledger = λ n. (some n, n);
  entry_from_xdr = λ x. some x;
  address = λ e. some "POLICY";
  authorize_entry = λ e until. some e;
  with_auth = λ es tx. (tx.0, true);
}

abbrev to_other : String
to_other = "RecipientNotAllowed"

abbrev above : String
above = "OverCap"

abbrev within : String
within = "AUTHORIZED"

main_lem_example :
    (status : ℕ) × (main
        (λ part message. part == message)
        sdk
        "POLICY"
        "ESCROW"
        "OTHER"
        (pos 500000000)
        0
      ≡ (some status, 6))
    × ((status ≡ 0) ⊎ (status ≡ 1))
    × ((status ≡ 0)
        ↔ ((to_other ≡ "RecipientNotAllowed") × (above ≡ "OverCap") × (within ≡ "AUTHORIZED")))
unfolding check_auth_verdict ◌+ℤ◌
main_lem_example =
    main_lem (λ part message. part == message) sdk "POLICY" "ESCROW" "OTHER" (pos 500000000) 0 6
      to_other above within (tried refl (tried refl (tried refl none_left)))
