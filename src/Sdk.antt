-- ===== src/Sdk.antt =====
-- lumo/sdk.py: the client that embeds the pipeline. Opening the database, the choice of the
-- model provider and files of invoices are not modelled. The state is the repository.
pub mod Attest
use lumo.Base.{
  Option, none, some, List, [], ◌∷◌, String, ◌==◌, if◌then◌else◌, Action, value_error, or_raise,
  gets, or_default, ◌>>=◌,
}
use lumo.Models.{PipelineResult}
use lumo.Config.{Config}
use lumo.Injection.{Text}
use lumo.Chain.{Kind, shipped, failed}
use lumo.Monitor.{Subscriber, subscribe}
use lumo.Monitor.Metrics.{Snapshot, snapshot}
use lumo.Db.Rows.{Intent}
use lumo.Db.Queries.{intent}
use lumo.Db.Repo.{Repo}
use lumo.Oracle.{AttestationSource, local_signer_set, build_oracle}
use lumo.Pipeline.Findings.{Services}
use lumo.Pipeline.Run.{run}

-- ATTEST_KINDS
abbrev pub kind_of : String → Option Kind
kind_of kind =
    if kind == "Shipped" then some shipped else if kind == "Failed" then some failed else none

-- `config.oracle_address or "local-oracle"`
abbrev pub local_oracle : Config → AttestationSource
local_oracle config =
    local_signer_set
      ((if config.oracle_address == "" then "local-oracle" else config.oracle_address) ∷ [])

module _ {E : Type 0} where
  unfoldable pub propose :
      {D : Type 0} → Services D → Config → Text → Action (Repo E) PipelineResult
  propose sv config invoice = run sv invoice config none none

  unfoldable pub status : String → Action (Repo E) (Option Intent)
  status id = gets (λ s. intent id s.db)

  -- `split_names` splits at the commas, strips each part and drops the empty ones.
  unfoldable pub attest :
      (String → List String) → Config → String → String → Action (Repo E) (List String)
  attest split_names config id kind = do
    known ← or_raise (kind_of kind) value_error
    row ← (λ s. or_raise (intent id s.db) value_error s)
    oracle ← (λ s. (build_oracle split_names config, s))
    lumo.Oracle.submit (or_default oracle (local_oracle config)) id known row.request_hash

  unfoldable pub on_event : Subscriber E → Repo E → Repo E
  on_event callback s = record s { bus = subscribe callback s.bus }

  unfoldable pub metrics : Repo E → Snapshot
  metrics s = snapshot s.db
