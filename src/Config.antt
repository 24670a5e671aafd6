-- ===== src/Config.antt =====
-- lumo/config.py: the settings with their validation, and the trust profiles. Fields that only name
-- endpoints are left out.
pub mod Env
pub mod Valid
use lumo.Base.{
  ℕ, ℤ, pos, leb_ℤ, ltb_ℤ, Bool, true, false, not, ◌&&◌, ◌||◌, Option, none, some, String, ◌==◌,
  Result, ok, err, value_error, if◌then◌else◌,
}

pub record Config : Type 0 where
  pub mock_mode : String
  pub deadline_secs : ℤ
  pub sme_smart_account : String
  pub oracle_address : String
  pub chain_adapter : String
  pub anchor_adapter : String
  pub oracle_adapter : String
  pub oracle_signers : String
  pub injection_scan : Bool
  pub policy_engine : Bool
  pub policy_signer : Bool
  pub require_attestation : Bool
  pub k_of_n : ℤ
  pub human_cosign_threshold : ℤ
  pub proof_of_compute : Bool
  pub dry_run : Bool
  pub monitoring : Bool
  pub api_port : ℤ

-- The defaults of the dataclass.
abbrev pub defaults : Config
defaults = record {
  mock_mode = "honest";
  deadline_secs = pos 3600;
  sme_smart_account = "";
  oracle_address = "";
  chain_adapter = "soroban";
  anchor_adapter = "mock";
  oracle_adapter = "";
  oracle_signers = "";
  injection_scan = true;
  policy_engine = true;
  policy_signer = true;
  require_attestation = false;
  k_of_n = pos 1;
  human_cosign_threshold = pos 0;
  proof_of_compute = false;
  dry_run = false;
  monitoring = true;
  api_port = pos 8788;
}

-- The flags that a profile sets.
pub record Trust : Type 0 where
  pub injection_scan : Bool
  pub policy_engine : Bool
  pub policy_signer : Bool
  pub require_attestation : Bool
  pub k_of_n : ℤ
  pub human_cosign_threshold : ℤ
  pub proof_of_compute : Bool

abbrev pub strict : Trust
strict = record {
  injection_scan = true;
  policy_engine = true;
  policy_signer = true;
  require_attestation = true;
  k_of_n = pos 3;
  human_cosign_threshold = pos 1_000_000_000;
  proof_of_compute = true;
}

abbrev pub balanced : Trust
balanced = record {
  injection_scan = true;
  policy_engine = true;
  policy_signer = true;
  require_attestation = true;
  k_of_n = pos 1;
  human_cosign_threshold = pos 0;
  proof_of_compute = false;
}

abbrev pub fast : Trust
fast = record {
  injection_scan = true;
  policy_engine = true;
  policy_signer = false;
  require_attestation = false;
  k_of_n = pos 1;
  human_cosign_threshold = pos 0;
  proof_of_compute = false;
}

abbrev pub profile_named : String → Option Trust
profile_named name =
    if name == "strict"
    then some strict
    else if name == "balanced"
    then some balanced
    else if name == "fast"
    then some fast
    else none

abbrev pub with_trust : Trust → Config → Config
with_trust t c = record c {
  injection_scan = t.injection_scan;
  policy_engine = t.policy_engine;
  policy_signer = t.policy_signer;
  require_attestation = t.require_attestation;
  k_of_n = t.k_of_n;
  human_cosign_threshold = t.human_cosign_threshold;
  proof_of_compute = t.proof_of_compute;
}

-- `strip` is `str.strip`.
module _ (strip : String → String) where
  -- `__post_init__`, in the order of its checks
  unfoldable pub post_init : Config → Result Config
  post_init c =
      if not
        (c.chain_adapter == "soroban" || (c.chain_adapter == "mock" || c.chain_adapter == "evm"))
      then err value_error
      else if not (leb_ℤ (pos 1) c.api_port && leb_ℤ c.api_port (pos 65535))
      then err value_error
      else if ltb_ℤ c.k_of_n (pos 1)
      then err value_error
      else if leb_ℤ c.deadline_secs (pos 0)
      then err value_error
      else if not (c.mock_mode == "honest" || c.mock_mode == "compromised")
      then err value_error
      else ok (record c { sme_smart_account = strip c.sme_smart_account })

  -- `Config.profile`; `overrides` sets the fields that the caller names.
  unfoldable pub profile : String → (Config → Config) → Result Config
  unfolding post_init
  profile name overrides = elim (profile_named name) [
    | none ↦ err value_error
    | some t ↦ post_init (overrides (with_trust t defaults))
  ]
