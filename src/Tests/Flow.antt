-- ===== src/Tests/Flow.antt =====
-- The flow (lumo/flow.py), the commands (lumo/cli.py) and the client (lumo/sdk.py) on small inputs.
use lumo.Base.{ℤ, ok, false, ℕ, pos, ◌≤◌, ◌≡◌, ◌⊎◌, refl, none, some, List, [], ◌∷◌, String, arith}
use lumo.Models.{TxArgs, Status}
use lumo.Db.Repo.{Repo, claim_escrow}
use lumo.Db.Evolves.{Evolves}
use lumo.Config.{defaults}
use lumo.Chain.{shipped}
use lumo.Chain.Mock.{MockChain, mock_adapter}
use lumo.Db.Rows.{Intent}
use lumo.Db.Queries.{intent}
use lumo.Flow.Steps.{World}
use lumo.Flow.Settle.{release}
use lumo.Flow.Trace.{traced, Quiet}
use lumo.Flow.Execute.{execute}
use lumo.Flow.Execute.Claim.{Submitted}
use lumo.Flow.Execute.Outcome.{execute_outcome}
use lumo.Flow.Execute.Once.{
  FlowCall, proposed, executed, attested, released, reverted, synced, submissions, run_calls,
  submits_once,
}
use lumo.Flow.Execute.Again.{claim_escrow_once}
use lumo.Flow.Release.{release-IsCleared}
use lumo.Pipeline.Oracles.{IsCleared}
use lumo.Cli.{Command, init, propose, sync, Setup}
use lumo.Cli.Once.{run_commands, commands-submit_once}
use lumo.Sdk
use lumo.Sdk.{kind_of}
use lumo.Sdk.Attest.{entries, signed_by, attest-entries}
use lumo.Oracle.{build_oracle, submit, add_all}
use lumo.Db.Rows.{insert_attestation}
use lumo.Db.Repo.{add_attestation}
use lumo.Chain.{Kind}
use lumo.Base.{◌++◌}
use lumo.Tests.Data.{keep, whole, patterns, services, row, repo}

abbrev hash_of : String → ℕ → String
hash_of action n = action

abbrev funded_chain : MockChain
funded_chain = record {
  now = pos 0;
  intents = [];
  balances = ("T", "SME", pos 9) ∷ [];
  tx_count = 0;
}

abbrev world : World (Unit {0}) (MockChain × List TxArgs)
world = record { repo = repo (row ∷ []); chain = (funded_chain, []) }

abbrev calls : List FlowCall
calls =
    proposed (b'5' ∷ []) defaults none none
    ∷ executed "I1" "SME" defaults
    ∷ executed "I1" "SME" defaults
    ∷ attested "I1" shipped "ORA" "ORA" none
    ∷ released "I1" "SUP" defaults
    ∷ reverted "I1" "SME"
    ∷ synced "I1"
    ∷ []

submits_once_example :
    submissions "H1" (run_calls (mock_adapter hash_of) keep services calls world).chain.1 ≤ 1
submits_once_example =
    submits_once (mock_adapter hash_of) keep services "H1" calls world (λ i. ground arith)
      (ground arith) refl

abbrev setup : Setup (Unit {0}) MockChain ℤ
setup = record {
  config = defaults;
  provider = "mock";
  sme_source = "SME";
  oracle_source = "ORA";
  hooks = ok none;
  adapter = ok (mock_adapter hash_of);
  services = services;
  lower = keep;
  split_names = λ s. [];
}

abbrev commands : List (Setup (Unit {0}) MockChain ℤ × Command)
commands =
    (setup, init)
    ∷ (setup, propose (some (b'5' ∷ [])))
    ∷ (setup, lumo.Cli.execute "I1")
    ∷ (setup, lumo.Cli.execute "I1")
    ∷ (setup, sync "I1")
    ∷ []

commands-submit_once_example : submissions "H1" (run_commands commands world).chain.1 ≤ 1
commands-submit_once_example =
    commands-submit_once "H1" commands world (λ i. ground arith) (ground arith) refl

execute_outcome_example :
    let v = (execute (traced (mock_adapter hash_of)) keep "I1" "SME" defaults world).1 in
    Quiet world v ⊎ Submitted "I1" world v
execute_outcome_example =
    execute_outcome (mock_adapter hash_of) keep "I1" "SME" defaults world (ground arith)

abbrev claimed : Repo (Unit {0})
claimed = repo (record row { status = Status.escrowed } ∷ [])

claimed_again : Evolves (claim_escrow "I1" (repo (row ∷ []))).1.db.intents claimed.db.intents
unfolding claim_escrow
claimed_again = ((refl, refl, λ p. p), tt)

claim_escrow_once_example : (claim_escrow "I1" claimed).0 ≡ ok false
claim_escrow_once_example = claim_escrow_once "I1" (repo (row ∷ [])) claimed claimed_again

abbrev settled_world : World (Unit {0}) MockChain
settled_world = record {
  repo = repo (record row { chain_intent_id = some 1 } ∷ []);
  chain = funded_chain;
}

release-IsCleared_example :
    ((release (mock_adapter hash_of) whole patterns keep "I1" "SUP" defaults settled_world).1.chain
      ≡ funded_chain)
    ⊎ (r : Intent) × (intent "I1" settled_world.repo.db ≡ some r)
      × IsCleared defaults r settled_world.repo.db
release-IsCleared_example =
    release-IsCleared (mock_adapter hash_of) whole patterns keep "I1" "SUP" defaults settled_world

abbrev fresh : Repo (Unit {0})
fresh = record (repo (row ∷ [])) { ids = λ n. "A9" }

attested_locally :
    (lumo.Sdk.attest (λ s. []) defaults "I1" "Shipped" fresh).0 ≡ ok ("local-oracle" ∷ [])
unfolding lumo.Sdk.attest build_oracle submit add_all add_attestation insert_attestation
attested_locally = refl

attest-entries_example :
    (known : Kind) × (r : Intent) × (kind_of "Shipped" ≡ some known)
    × (intent "I1" fresh.db ≡ some r)
    × (entries (lumo.Sdk.attest (λ s. []) defaults "I1" "Shipped" fresh).1.db.attestations
        ≡ entries fresh.db.attestations
          ++ signed_by ("local-oracle" ∷ []) "I1" known r.request_hash)
attest-entries_example =
    attest-entries (λ s. []) defaults "I1" "Shipped" fresh ("local-oracle" ∷ []) attested_locally
