-- ===== src/Cli.antt =====
-- lumo/cli.py and lumo/db/seed.py: the commands and their exit codes. Parsing the arguments,
-- printing, opening the database and the migrations of `init` are not modelled: the tables are
-- there.
pub mod Seed
pub mod Once
use lumo.Base.{
  ℕ, Bool, true, false, ◌||◌, Option, none, some, List, [], ◌∷◌, ◌++◌, String, ◌==◌, if◌then◌else◌,
  any, Action, Result, ok, err, value_error, other, pure, or_raise, modify, ◌>>=◌, ◌>>◌, raise_if,
  not,
}
use lumo.Models.{Decision, PipelineResult}
use lumo.Config.{Config}
use lumo.Injection.{Text}
use lumo.Chain.{ChainAdapter, Kind}
use lumo.Monitor.{EventBus, Subscriber, subscribe}
use lumo.Db.Rows.{Supplier, Tables}
use lumo.Db.Repo.{Repo, new_id, set_rule}
use lumo.Oracle.{build_oracle}
use lumo.Pipeline.Findings.{Services}
use lumo.Pipeline.Run.{run}
use lumo.Flow.Steps.{World, on_repo, lift}
use lumo.Flow.Execute
use lumo.Flow.Settle.{sync_status}

-- The subcommands; the text of the invoice is none if its file cannot be read.
pub data Command : Type 0 where
  init : Command
  propose : Option Text → Command
  execute : String → Command
  attest : String → Kind → Command
  release : String → Command
  revert : String → Command
  sync : String → Command

-- What the configuration leads to: the hooks of `build_webhooks` and the adapter of
-- `build_chain_adapter` with the errors that they raise, and the services of the pipeline.
pub record Setup (E C D : Type 0) : Type 0 where
  pub config : Config
  pub provider : String
  pub sme_source : String
  pub oracle_source : String
  pub hooks : Result (Option (Subscriber E))
  pub adapter : Result (ChainAdapter C)
  pub services : Services D
  pub lower : String → String
  pub split_names : String → List String

-- `build_provider` raises for another name.
abbrev pub is_provider : String → Bool
is_provider name = name == "mock" || name == "llama"

-- the decision of the pipeline as an exit code
abbrev pub proposal_code : Decision → ℕ
proposal_code Decision.proposed = 0
proposal_code _ = 2

module _ {E : Type 0} where
  -- `INSERT OR IGNORE INTO suppliers`
  abbrev pub add_or_ignore : String → String → Action (Repo E) (Unit {0})
  add_or_ignore name address = do
    id ← new_id
    modify (λ s. if any (λ q. q.id == id || q.name == name) s.db.suppliers then s else record s {
      db = record s.db {
        suppliers = s.db.suppliers ++ record { id = id; name = name; address = address } ∷ [];
      };
    })

  unfoldable pub seed : Action (Repo E) (Unit {0})
  seed = do
    add_or_ignore "CV Batik Nusantara" "GBATIKYLX7IEOR2YJMNTPMKZCIWXT2PAX635P7ZDGB3DTLQLS263VNS3"
    add_or_ignore "PT Kain Jaya Textiles" "GKAING2HW25HBZSUAASSYDDENT4D5WTH3OCLLBMZM6DP2VJBW63ESO63"
    set_rule "sme_address" "GBUSARIYWABHQJ7BYCIY6F6Y4ZFWOASDFGFOHBGWCT2DTKBAFFN2DWLR"
    set_rule "token_address" "CUSDCR3LOBHARLAPU3ASFXKBMSZPJKLZVXW3AOO24DRILTVEHSWW3G3T"
    set_rule "cap_per_tx" "20000000000"
    set_rule "cap_daily" "50000000000"

  abbrev pub empty_bus : Bool → EventBus E → EventBus E
  empty_bus on old = record { enabled = on; subscribers = []; recent = []; env = old.env }

  -- a bus of its own for each run of the program
  abbrev pub new_bus : Bool → Option (Subscriber E) → EventBus E → EventBus E
  new_bus on none old = empty_bus on old
  new_bus on (some hooks) old = subscribe hooks (empty_bus on old)

module _ {E C D : Type 0} (setup : Setup E C D) where
  abbrev pub open_repo : Action (World E C) (Unit {0})
  open_repo = do
    hooks ← lift setup.hooks
    modify (λ w. record w {
      repo = record w.repo { bus = new_bus setup.config.monitoring hooks w.repo.bus };
    })

  abbrev pub exit_0 : {A : Type 0} → Action (World E C) A → Action (World E C) ℕ
  exit_0 m = do m; pure 0

  -- the commands that need the chain
  abbrev pub on_client : ChainAdapter C → Command → Action (World E C) ℕ
  on_client client (execute id) =
      exit_0 (lumo.Flow.Execute.execute client setup.lower id setup.sme_source setup.config)
  on_client client (attest id kind) = do
    oracle ← lift (build_oracle setup.split_names setup.config)
    exit_0 (
        lumo.Flow.Settle.attest client id kind setup.config.oracle_address setup.oracle_source
          oracle)
  on_client client (release id) = exit_0 (
      lumo.Flow.Settle.release client setup.services.decimals setup.services.patterns
        setup.services.sha256_hex id setup.sme_source setup.config)
  on_client client (revert id) = exit_0 (lumo.Flow.Settle.revert client id setup.sme_source)
  on_client client (sync id) = exit_0 (sync_status client id)
  on_client client _ = pure 0

  abbrev pub with_client : Command → Action (World E C) ℕ
  with_client command = do open_repo; client ← lift setup.adapter; on_client client command

  abbrev pub run_command : Command → Action (World E C) ℕ
  run_command init = exit_0 (on_repo seed)
  run_command (propose text) = do
    open_repo
    invoice ← or_raise text other
    raise_if (not (is_provider setup.provider)) value_error
    result ← on_repo (run setup.services invoice setup.config none none)
    pure (proposal_code result.decision)
  run_command command = with_client command

  -- `except Exception`
  abbrev pub exit_code : Result ℕ × World E C → ℕ × World E C
  exit_code (ok code, w) = (code, w)
  exit_code (err e, w) = (3, w)

  unfoldable pub main : Command → World E C → ℕ × World E C
  unfolding seed
  main command w = exit_code (run_command command w)
