-- ===== src/Config/Env.antt =====
-- lumo/config.py: the settings that the environment gives over those of a file. The state is the
-- environment, which is only read.
use lumo.Base.{
  ℤ, Bool, Option, none, some, List, [], ◌∷◌, String, elem, or_default, Result, ok, value_error,
  Action, ◌>>=◌, or_raise,
}
use lumo.Config.{Config, defaults, post_init}

abbrev pub truthy : List String
truthy = "1" ∷ "true" ∷ "yes" ∷ "on" ∷ []

abbrev pub Environ : Type 0
Environ = String → Option String

-- `lower` is `str.lower`, `int_of` is `int` of a text; `from_file path` is none if there is no such
-- file, and otherwise what `Config.from_file` returns or raises.
module _ (strip lower : String → String) (int_of : String → Option ℤ)
    (from_file : String → Option (Result Config)) where
  abbrev pub text_over : String → String → Action Environ String
  text_over name current env = (ok (or_default (env name) current), env)

  abbrev pub flag_from : Option String → Bool → Bool
  flag_from none current = current
  flag_from (some raw) current = elem (lower raw) truthy

  abbrev pub flag_over : String → Bool → Action Environ Bool
  flag_over name current env = (ok (flag_from (env name) current), env)

  abbrev pub number_from : Option String → ℤ → Option ℤ
  number_from none current = some current
  number_from (some raw) current = int_of raw

  abbrev pub number_over : String → ℤ → Action Environ ℤ
  number_over name current env = or_raise (number_from (env name) current) value_error env

  -- the file that LUMO_CONFIG names, or the defaults
  abbrev pub base_config : Action Environ Config
  base_config env = (
    or_default (from_file (or_default (env "LUMO_CONFIG") "lumo.toml")) (post_init strip defaults),
    env,
  )

  -- `Config.from_env`
  unfoldable pub from_env : Action Environ Config
  from_env = do
    base ← base_config
    deadline_secs ← number_over "LUMO_DEADLINE_SECS" base.deadline_secs
    k_of_n ← number_over "LUMO_K_OF_N" base.k_of_n
    threshold ← number_over "LUMO_HUMAN_COSIGN_THRESHOLD" base.human_cosign_threshold
    api_port ← number_over "LUMO_API_PORT" base.api_port
    mock_mode ← text_over "LUMO_MOCK_MODE" base.mock_mode
    sme_smart_account ← text_over "LUMO_SME_SMART_ACCOUNT" base.sme_smart_account
    oracle_address ← text_over "LUMO_ORACLE_ADDRESS" base.oracle_address
    chain_adapter ← text_over "LUMO_CHAIN_ADAPTER" base.chain_adapter
    anchor_adapter ← text_over "LUMO_ANCHOR_ADAPTER" base.anchor_adapter
    oracle_adapter ← text_over "LUMO_ORACLE_ADAPTER" base.oracle_adapter
    oracle_signers ← text_over "LUMO_ORACLE_SIGNERS" base.oracle_signers
    injection_scan ← flag_over "LUMO_INJECTION_SCAN" base.injection_scan
    policy_engine ← flag_over "LUMO_POLICY_ENGINE" base.policy_engine
    policy_signer ← flag_over "LUMO_POLICY_SIGNER" base.policy_signer
    require_attestation ← flag_over "LUMO_REQUIRE_ATTESTATION" base.require_attestation
    proof_of_compute ← flag_over "LUMO_PROOF_OF_COMPUTE" base.proof_of_compute
    dry_run ← flag_over "LUMO_DRY_RUN" base.dry_run
    monitoring ← flag_over "LUMO_MONITORING" base.monitoring
    λ env. (
      post_init strip (record {
        mock_mode = mock_mode;
        deadline_secs = deadline_secs;
        sme_smart_account = sme_smart_account;
        oracle_address = oracle_address;
        chain_adapter = chain_adapter;
        anchor_adapter = anchor_adapter;
        oracle_adapter = oracle_adapter;
        oracle_signers = oracle_signers;
        injection_scan = injection_scan;
        policy_engine = policy_engine;
        policy_signer = policy_signer;
        require_attestation = require_attestation;
        k_of_n = k_of_n;
        human_cosign_threshold = threshold;
        proof_of_compute = proof_of_compute;
        dry_run = dry_run;
        monitoring = monitoring;
        api_port = api_port;
      }),
      env,
    )
