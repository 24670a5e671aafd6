-- ===== src/Cli/Once.antt =====
-- Commands in any order fund an invoice at most once.
use lumo.Base.{
  ℕ, ◌≤◌, ◌≡◌, refl, Option, none, List, [], ◌∷◌, String, ◌==◌, row_count, Action, Result, ok, err,
  value_error, other, or_raise, ◌>>=◌, raise_if, not,
}
use lumo.Base.Stays.{Stays, IsPreorder, Stays-result, Stays-bind, Stays-raise_if, Stays-or_raise}
use lumo.Models.{TxArgs}
use lumo.Chain.{ChainAdapter}
use lumo.Injection.{Text}
use lumo.Chain.Adapter.{evm_adapter}
use lumo.Oracle.{build_oracle}
use lumo.Pipeline.Run.{run}
use lumo.Flow.Steps.{World, on_repo, lift}
use lumo.Flow.Trace.{traced}
use lumo.Flow.Execute.Once.{
  FlowCall, proposed, executed, attested, released, reverted, synced, submissions, call, IsOnce,
  call-IsOnce, IsOnce-start,
}
use lumo.Cli.{
  Command, init, propose, execute, attest, release, revert, sync, Setup, is_provider, proposal_code,
  seed, open_repo, exit_0, on_client, with_client, run_command, exit_code, main,
}
use lumo.Cli.Seed.{seed-SameIntents}

abbrev pub traced_adapter :
    {C : Type 0} → Result (ChainAdapter C) → Result (ChainAdapter (C × List TxArgs))
traced_adapter (ok client) = ok (traced client)
traced_adapter (err e) = err e

-- the setup with a record of the calls of `create_intent` after which an escrow may exist
abbrev pub traced_setup : {E C D : Type 0} → Setup E C D → Setup E (C × List TxArgs) D
traced_setup setup = record {
  config = setup.config;
  provider = setup.provider;
  sme_source = setup.sme_source;
  oracle_source = setup.oracle_source;
  hooks = setup.hooks;
  adapter = traced_adapter setup.adapter;
  services = setup.services;
  lower = setup.lower;
  split_names = setup.split_names;
}

module _ {E C : Type 0} (k : String) where
  abbrev StaysOnce : World E (C × List TxArgs) → World E (C × List TxArgs) → Type 0
  StaysOnce w v = IsOnce k w → IsOnce k v

  pre : IsPreorder StaysOnce
  pre = record { start = λ w o. o; chain = λ a b c f g o. g (f o) }

  -- a change that keeps the intents and the record of submissions
  same_intents :
      (w v : World E (C × List TxArgs))
      → v.repo.db.intents ≡ w.repo.db.intents
      → v.chain ≡ w.chain
      → StaysOnce w v
  same_intents w v e c o = record { rows = rw (e, c) o.rows; at_most = rw c o.at_most }

module _ {E C D : Type 0} (k : String) (setup : Setup E C D) where
  abbrev setup' : Setup E (C × List TxArgs) D
  setup' = traced_setup setup

  of_call :
      {A : Type 0} (client : ChainAdapter C) (m : Action (World E (C × List TxArgs)) A)
      (c : FlowCall)
      → ((w : World E (C × List TxArgs)) → (m w).1 ≡ call client setup.lower setup.services c w)
      → Stays (StaysOnce k) (exit_0 setup' m)
  of_call client m c same =
      Stays-bind (pre k) m _
        (record {
          at_state = λ w o. rw (same w) (call-IsOnce client setup.lower setup.services k c w o);
        })
        λ _. Stays-result (pre k) (λ w. ok 0)

  open_repo-Stays : Stays (StaysOnce k) (open_repo setup')
  open_repo-Stays =
      Stays-bind (pre k) (lift setup.hooks) _ (Stays-result (pre k) (λ w. setup.hooks))
        λ hooks. record { at_state = λ w o. record { rows = o.rows; at_most = o.at_most } }

  on_client-Stays :
      (client : ChainAdapter C) (command : Command)
      → Stays (StaysOnce k) (on_client setup' (traced client) command)
  unfolding call
  on_client-Stays client (execute id) =
      of_call client _ (executed id setup.sme_source setup.config) (λ w. refl)
  on_client-Stays client (attest id kind) =
      Stays-bind (pre k) (lift (build_oracle setup.split_names setup.config)) _
        (Stays-result (pre k) (λ w. build_oracle setup.split_names setup.config))
        λ oracle.
          of_call client _ (attested id kind setup.config.oracle_address setup.oracle_source oracle)
            (λ w. refl)
  on_client-Stays client (release id) =
      of_call client _ (released id setup.sme_source setup.config) (λ w. refl)
  on_client-Stays client (revert id) = of_call client _ (reverted id setup.sme_source) (λ w. refl)
  on_client-Stays client (sync id) = of_call client _ (synced id) (λ w. refl)
  on_client-Stays client init = Stays-result (pre k) (λ w. ok 0)
  on_client-Stays client (propose text) = Stays-result (pre k) (λ w. ok 0)

  adapter-Stays :
      (r : Result (ChainAdapter C)) (command : Command)
      → Stays (StaysOnce k) (lift (traced_adapter r) >>= λ client. on_client setup' client command)
  adapter-Stays (ok client) command = record {
    at_state = (on_client-Stays client command).at_state;
  }
  adapter-Stays (err e) command = Stays-result (pre k) (λ w. err e)

  with_client-Stays : (command : Command) → Stays (StaysOnce k) (with_client setup' command)
  with_client-Stays command =
      Stays-bind (pre k) (open_repo setup') _ open_repo-Stays
        λ _. adapter-Stays setup.adapter command

  propose-Stays : (text : Option Text) → Stays (StaysOnce k) (run_command setup' (propose text))
  unfolding call
  propose-Stays text = Stays-bind (pre k) (open_repo setup') _ open_repo-Stays λ _.
      Stays-bind (pre k) (or_raise text other) _ (Stays-or_raise (pre k) text other) λ invoice.
        Stays-bind (pre k) (raise_if (not (is_provider setup.provider)) value_error) _
          (Stays-raise_if (pre k) (not (is_provider setup.provider)) value_error)
          λ _.
            Stays-bind (pre k) (on_repo (run setup.services invoice setup.config none none)) _
              (record {
                at_state =
                    call-IsOnce evm_adapter setup.lower setup.services k
                      (proposed invoice setup.config none none);
              })
              λ result. Stays-result (pre k) (λ w. ok (proposal_code result.decision))

  run_command-Stays : (command : Command) → Stays (StaysOnce k) (run_command setup' command)
  run_command-Stays init =
      Stays-bind (pre k) (on_repo seed) _
        (record {
          at_state = λ w.
              same_intents k w (on_repo seed w).1 (seed-SameIntents.at_state w.repo).intents refl;
        })
        λ _. Stays-result (pre k) (λ w. ok 0)
  run_command-Stays (propose text) = propose-Stays text
  run_command-Stays (execute id) = with_client-Stays (execute id)
  run_command-Stays (attest id kind) = with_client-Stays (attest id kind)
  run_command-Stays (release id) = with_client-Stays (release id)
  run_command-Stays (revert id) = with_client-Stays (revert id)
  run_command-Stays (sync id) = with_client-Stays (sync id)

  exit_code-state : (c : Result ℕ × World E (C × List TxArgs)) → (exit_code setup' c).1 ≡ c.1
  exit_code-state (ok code, w) = refl
  exit_code-state (err e, w) = refl

  main-StaysOnce :
      (command : Command) (w : World E (C × List TxArgs)) → StaysOnce k w (main setup' command w).1
  unfolding main
  main-StaysOnce command w o =
      rw (exit_code-state (run_command setup' command w)) ((run_command-Stays command).at_state w o)

module _ {E C D : Type 0} where
  -- Runs of the program one after another, each with a configuration of its own.
  unfoldable pub run_commands :
      List (Setup E C D × Command) → World E (C × List TxArgs) → World E (C × List TxArgs)
  run_commands [] w = w
  run_commands ((setup, command) ∷ cs) w = run_commands cs (main (traced_setup setup) command w).1

  run_commands-IsOnce :
      (k : String) (cs : List (Setup E C D × Command)) (w : World E (C × List TxArgs))
      → IsOnce k w
      → IsOnce k (run_commands cs w)
  unfolding run_commands
  run_commands-IsOnce k [] w o = o
  run_commands-IsOnce k ((setup, command) ∷ cs) w o =
      run_commands-IsOnce k cs (main (traced_setup setup) command w).1
        (main-StaysOnce k setup command w o)

  -- Start with intents whose ids differ pairwise and of which at most one has the request hash
  -- `k`, and with no recorded submission. After any list of commands `init`, `propose`, `execute`,
  -- `attest`, `release`, `revert` and `sync`, each under any configuration and each followed by
  -- the next whatever its exit code, at most one call of `create_intent` with the request hash `k`
  -- has succeeded or been left unconfirmed.
  pub commands-submit_once :
      (k : String) (cs : List (Setup E C D × Command)) (w : World E (C × List TxArgs))
      → ((i : String) → row_count (λ r. r.id == i) w.repo.db.intents ≤ 1)
      → row_count (λ r. r.request_hash == k) w.repo.db.intents ≤ 1
      → w.chain.1 ≡ []
      → submissions k (run_commands cs w).chain.1 ≤ 1
  commands-submit_once k cs w ids hashes clean =
      (run_commands-IsOnce k cs w (IsOnce-start k w ids hashes clean)).at_most
