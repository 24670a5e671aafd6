-- ===== src/Testtool.antt =====
-- lumo/testtool.py: an invoice from the proposal to the release, and the transactions of it. The
-- client's repository is opened before, and its connection closed after, the call that is modelled.
pub mod Row
pub mod Fundable
pub mod Pays
use Prim.Native.String.{◌++◌ as str_append}
use lumo.Base.{
  Bool, true, false, Option, none, some, List, [], ◌∷◌, String, ◌==◌, if◌then◌else◌, lookup, insert,
  ok, Action, pure, or_raise, value_error, ◌>>=◌, ◌>>◌,
}
use lumo.Models.{Decision, PipelineResult}
use lumo.Config.{Config}
use lumo.Injection.{Text}
use lumo.Chain.{ChainAdapter, shipped}
use lumo.Db.Rows.{ChainTx}
use lumo.Db.Queries.{chain_txs}
use lumo.Pipeline.Findings.{Services}
use lumo.Flow.Steps.{World, on_repo}
use lumo.Flow.Execute.{execute}
use lumo.Flow.Settle.{attest, release}
use lumo.Sdk.{propose}

abbrev pub explorer_tx : String
explorer_tx = "https://stellar.expert/explorer/testnet/tx/"

abbrev pub step_of_action : List (String × String)
step_of_action =
    ("create_intent", "create_intent") ∷ ("attest_shipped", "attest") ∷ ("release", "release") ∷ []

pub record Step : Type 0 where
  pub step : String
  pub hash : String
  pub url : String

-- The dictionary that the call returns; a key that is not set is none.
pub record Report : Type 0 where
  pub decision : Decision
  pub codes : List String
  pub flags : List String
  pub request_hash : String
  pub intent_id : Option String
  pub txs : List Step

abbrev pub is_proposal : Decision → Bool
is_proposal Decision.proposed = true
is_proposal _ = false

-- `{r["action"]: r["tx_hash"] for r in …}`: a later row replaces an earlier one
abbrev pub hashes_from :
    List ChainTx → List (String × Option String) → List (String × Option String)
hashes_from [] d = d
hashes_from (r ∷ rs) d = hashes_from rs (insert r.action r.tx_hash d)

abbrev pub step_at : String → Option (Option String) → List Step → List Step
step_at step (some (some hash)) rest =
    if hash == ""
    then rest
    else record { step = step; hash = hash; url = str_append explorer_tx hash } ∷ rest
step_at step _ rest = rest

unfoldable pub steps_of : List (String × String) → List (String × Option String) → List Step
steps_of [] hashes = []
steps_of ((action, step) ∷ rest) hashes = step_at step (lookup action hashes) (steps_of rest hashes)

abbrev pub report_of : PipelineResult → Option String → List Step → Report
report_of r id txs = record {
  decision = r.decision;
  codes = r.codes;
  flags = r.flags;
  request_hash = r.request_hash;
  intent_id = id;
  txs = txs;
}

-- `source` and `oracle_source` are `config.sme_source` and `config.oracle_source`; `client` is the
-- given adapter, or the one of the configuration.
module _ {E C D : Type 0} (client : ChainAdapter C) (lower : String → String) (sv : Services D)
    (source oracle_source : String) where
  -- the part after a proposal
  unfoldable pub settle_proposal :
      Config → PipelineResult → Option String → Action (World E C) Report
  settle_proposal config result id_of = do
    id ← or_raise id_of value_error
    execute client lower id source config
    attest client id shipped config.oracle_address oracle_source none
    release client sv.decimals sv.patterns sv.sha256_hex id source config
    rows ← (λ w. (ok (chain_txs id w.repo.db), w))
    pure (report_of result (some id) (steps_of step_of_action (hashes_from rows [])))

  unfoldable pub run_invoice : Config → Text → Action (World E C) Report
  unfolding settle_proposal
  run_invoice config invoice = do
    result ← on_repo (propose sv config invoice)
    if is_proposal result.decision
        then settle_proposal config result result.intent_id
        else pure (report_of result none [])
