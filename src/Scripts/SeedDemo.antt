-- ===== src/Scripts/SeedDemo.antt =====
-- scripts/seed_demo_db.py: a demonstration database over the mock provider and the in-process
-- chain. The command line, the opening of the database and its tables, and the output are not
-- modelled: the state is the repository after `migrate.up`, and the result is what is printed.
use lumo.Base.{
  ℕ, ℤ, pos, ◌^◌, ◌*◌, Bool, true, false, not, none, [], String, elem, lookup, Action, ok, pure,
  raise_if, or_raise, ◌>>=◌, ◌>>◌, key_error, value_error, other,
}
use lumo.Models.{Status, status_eq, Decision, PipelineResult}
use lumo.Config.{Config}
use lumo.Injection.{Text}
use lumo.Policy.{injection_suspected}
use lumo.Chain.{shipped}
use lumo.Chain.Mock.{MockChain, mock_adapter, fund}
use lumo.Monitor.Metrics.{Snapshot, snapshot}
use lumo.Pipeline.Findings.{Services}
use lumo.Pipeline.Run.{run}
use lumo.Flow.Steps.{World, on_repo, on_chain}
use lumo.Flow.Execute.{execute}
use lumo.Flow.Settle.{attest, release, revert}
use lumo.Cli.{seed}
use lumo.Llm.{MockPatterns, mock_extract, honest}

abbrev pub stroop : ℕ
stroop = 10000000

abbrev is_proposed : Decision → Bool
is_proposed Decision.proposed = true
is_proposed _ = false

abbrev is_refused : Decision → Bool
is_refused Decision.refused = true
is_refused _ = false

-- `MockChainAdapter(now=…)`
abbrev pub new_chain : ℤ → MockChain
new_chain now = record { now = now; intents = []; balances = []; tx_count = 0 }

-- the services with `MockProvider()`
abbrev pub with_mock : {D : Type 0} → MockPatterns → Services D → Services D
with_mock pat sv = record sv { extract = λ t. ok (mock_extract pat honest t) }

-- the clock far past every deadline
abbrev late : Action MockChain (Unit {0})
late c = (ok tt, record c { now = pos (2 ^ 62) })

-- `config` is `Config(provider="mock", chain_adapter="mock")` with the sources of its defaults, and
-- `invoice` reads a fixture.
module _ {E D : Type 0} (tx_hash_of : String → ℕ → String) (lower : String → String)
    (sv : Services D) (pat : MockPatterns) (config : Config) (sme_source oracle_source : String)
    (invoice : String → Text) where
  -- `assert`
  abbrev expect : Bool → Action (World E MockChain) (Unit {0})
  expect holds = raise_if (not holds) other

  abbrev rule : String → Action (World E MockChain) String
  rule key w = or_raise (lookup key w.repo.db.policy_rules) key_error w

  abbrev propose : String → Action (World E MockChain) PipelineResult
  propose name = on_repo (run (with_mock pat sv) (invoice name) config none none)

  -- a proposal that has to be one, and its escrow
  abbrev escrow : String → Action (World E MockChain) String
  escrow name = do
    result ← propose name
    expect (is_proposed result.decision)
    id ← or_raise result.intent_id value_error
    execute (mock_adapter tx_hash_of) lower id sme_source config
    pure id

  abbrev start_chain : Action (World E MockChain) (Unit {0})
  start_chain w = (ok tt, record w { chain = new_chain (pos w.repo.now) })

  unfoldable pub main : Action (World E MockChain) Snapshot
  main = do
    on_repo seed
    start_chain
    token ← rule "token_address"
    sme ← rule "sme_address"
    on_chain (fund token sme (pos (10000 * stroop)))
    happy ← escrow "clean_in_policy.txt"
    attest (mock_adapter tx_hash_of) happy shipped config.oracle_address oracle_source none
    paid ←
        release (mock_adapter tx_hash_of) sv.decimals sv.patterns sv.sha256_hex happy sme_source
          config
    expect (status_eq paid Status.released)
    poisoned ← propose "inject_address_swap.txt"
    expect (is_refused poisoned.decision)
    expect (elem injection_suspected poisoned.codes)
    lapse ← escrow "clean_control.txt"
    on_chain late
    lapsed ← revert (mock_adapter tx_hash_of) lapse sme_source
    expect (status_eq lapsed Status.reverted)
    (λ w. (ok (snapshot w.repo.db), w))
