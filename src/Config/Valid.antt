-- ===== src/Config/Valid.antt =====
-- What a configuration that was accepted satisfies.
use lumo.Base.{
  ℤ, subst, sym, bind_ok, Option, Result, Action, pos, ◌≤ℤ◌, ◌<ℤ◌, ◌≡◌, ◌⊎◌, ◌↔◌, String, ok, arith,
  eq_iff,
}
use lumo.Config.Env.{Environ, base_config, number_over, from_env}
use lumo.Config.{Config, post_init}

pub record IsValid (c : Config) : Type 0 where
  pub adapter :
      (c.chain_adapter ≡ "soroban") ⊎ ((c.chain_adapter ≡ "mock") ⊎ (c.chain_adapter ≡ "evm"))
  pub port : (pos 1 ≤ℤ c.api_port) × (c.api_port ≤ℤ pos 65535)
  pub quorum : pos 1 ≤ℤ c.k_of_n
  pub deadline : pos 0 <ℤ c.deadline_secs
  pub mode : (c.mock_mode ≡ "honest") ⊎ (c.mock_mode ≡ "compromised")

module _ (strip : String → String) where
  accepted : (c c' : Config) → post_init strip c ≡ ok c' → IsValid c
  unfolding post_init
  accepted c c' h = record {
    adapter = ground (
      arith,
      eq_iff c.chain_adapter "soroban",
      eq_iff c.chain_adapter "mock",
      eq_iff c.chain_adapter "evm",
    );
    port = ground arith;
    quorum = ground arith;
    deadline = ground arith;
    mode = ground (arith, eq_iff c.mock_mode "honest", eq_iff c.mock_mode "compromised");
  }

  -- A configuration is accepted exactly when it is valid, and then it is unchanged but for the
  -- white space around the smart account.
  pub post_init_iff :
      (c c' : Config)
      → (post_init strip c ≡ ok c')
        ↔ (IsValid c × (c' ≡ record c { sme_smart_account = strip c.sme_smart_account }))
  unfolding post_init
  post_init_iff c c' = (
    λ h. (accepted c c' h, ground arith),
    λ h. ground (
      arith,
      eq_iff c.chain_adapter "soroban",
      eq_iff c.chain_adapter "mock",
      eq_iff c.chain_adapter "evm",
      eq_iff c.mock_mode "honest",
      eq_iff c.mock_mode "compromised",
    ),
  )

  post_init-IsValid : (b c : Config) → post_init strip b ≡ ok c → IsValid c
  post_init-IsValid b c h =
      let (v, same) = (post_init_iff b c).0 h in
      subst IsValid (sym same) (record {
        adapter = v.adapter;
        port = v.port;
        quorum = v.quorum;
        deadline = v.deadline;
        mode = v.mode;
      })

module _ (strip lower : String → String) (int_of : String → Option ℤ)
    (from_file : String → Option (Result Config)) where
  abbrev number : String → ℤ → Action Environ ℤ
  number = number_over strip lower int_of from_file

  -- Whatever the file and the environment say, the configuration that `from_env` returns is valid.
  pub from_env-IsValid :
      (env : Environ) (c : Config)
      → (from_env strip lower int_of from_file env).0 ≡ ok c
      → IsValid c
  unfolding from_env
  from_env-IsValid env c h =
      let (base, _, h0) = bind_ok (base_config strip lower int_of from_file env) _ c h in
      let (deadline, _, h1) = bind_ok (number "LUMO_DEADLINE_SECS" base.deadline_secs env) _ c h0 in
      let e1 = (number "LUMO_DEADLINE_SECS" base.deadline_secs env).1 in
      let (quorum, _, h2) = bind_ok (number "LUMO_K_OF_N" base.k_of_n e1) _ c h1 in
      let e2 = (number "LUMO_K_OF_N" base.k_of_n e1).1 in
      let (threshold, _, h3) =
        bind_ok (number "LUMO_HUMAN_COSIGN_THRESHOLD" base.human_cosign_threshold e2) _ c h2 in
      let e3 = (number "LUMO_HUMAN_COSIGN_THRESHOLD" base.human_cosign_threshold e2).1 in
      let (port, _, h4) = bind_ok (number "LUMO_API_PORT" base.api_port e3) _ c h3 in
      post_init-IsValid strip _ c h4
