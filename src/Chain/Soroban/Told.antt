-- ===== src/Chain/Soroban/Told.antt =====
-- Each operation of the client tells the `stellar` command what was asked for, once.
use lumo.Base.{
  ◌≡◌, refl, ◌∙◌, Option, none, some, List, [], ◌∷◌, ◌++◌, String, ◌==◌, Action, ok, ◌>>=◌, pure,
  or_default, inl, inr, Result-cases, Option-cases, ◌>>◌, or_raise, raise_if, other, chain_error,
  not,
}
use lumo.Base.Stays.{
  Stays, IsPreorder, Stays-result, Stays-bind, Stays-raise_if, Stays-or_raise, Stays-if,
}
use lumo.Json.{null}
use lumo.Chain.Soroban.{
  Args, Process, Cli, SorobanClient, Invoked, build_invoke_cmd, invoke, create_intent, attest,
  release, refund, add_oracle, get_intent, balance, create_args, id_arg, encode_enum, or_else,
  read_value, is_zero, last,
}
use lumo.Chain.Soroban.Command.{Invocation, read_command, read_command-build, given_send}
use lumo.Chain.Soroban.Operation.{
  Operation, creates, attests, releases, refunds, adds_oracle, gets_intent, reads_balance,
  source_of, drop_result, perform, request,
}

-- the command with a record of the command lines that it was run with
abbrev pub traced_cli : {N : Type 0} → Cli N → Cli (N × List (List String))
traced_cli cli = record {
  run = λ cmd w. ((cli.run cmd w.0).0, ((cli.run cmd w.0).1, w.1 ++ cmd ∷ []));
  strip = cli.strip;
  show = cli.show;
  loads = cli.loads;
  dumps = cli.dumps;
  tx_hashes = cli.tx_hashes;
  int_of = cli.int_of;
}

-- Exactly one command has been run, and it reads as `i`.
pub record Told {N : Type 0} (i : Invocation) (w v : N × List (List String)) : Type 0 where
  pub command : List String
  pub reads : read_command command ≡ some i
  pub trace : v.1 ≡ w.1 ++ command ∷ []

module _ {N : Type 0} (cli : Cli N) (c : SorobanClient) where
  abbrev SameTrace : (N × List (List String)) → (N × List (List String)) → Type 0
  SameTrace w v = v.1 ≡ w.1

  same : IsPreorder SameTrace
  same = record { start = λ w. refl; chain = λ a b d f g. g ∙ f }

  -- what follows the command in `invoke`
  abbrev finish : Process → Action (N × List (List String)) Invoked
  finish proc = do
    raise_if (not (is_zero proc.returncode)) chain_error
    value ← read_value (traced_cli cli) (cli.strip proc.stdout)
    pure (record { value = value; tx_hash = last (cli.tx_hashes proc.stderr) })

  finish-SameTrace : (proc : Process) → Stays SameTrace (finish proc)
  finish-SameTrace proc =
      Stays-bind same (raise_if (not (is_zero proc.returncode)) chain_error) _
        (Stays-raise_if same (not (is_zero proc.returncode)) chain_error)
        λ _.
          Stays-bind same (read_value (traced_cli cli) (cli.strip proc.stdout)) _
            (Stays-if same (cli.strip proc.stdout == "") (pure null)
              (or_raise (cli.loads (cli.strip proc.stdout)) other)
              (Stays-result same (λ s. ok null))
              (Stays-or_raise same (cli.loads (cli.strip proc.stdout)) other))
            λ value.
              Stays-result same
                (λ s. ok (record { value = value; tx_hash = last (cli.tx_hashes proc.stderr) }))

  invoke-Told :
      (function : String) (args : Args) (source contract_id send : Option String) (from : String)
      (w : N × List (List String))
      → or_else source c.source ≡ some from
      → Told
          (record {
            contract_id = or_default (or_else contract_id none) c.escrow_id;
            source = from;
            network = c.network;
            send = given_send send;
            function = function;
            args = args;
          })
          w
          (invoke (traced_cli cli) c function args source contract_id send w).1
  unfolding invoke
  invoke-Told function args source contract_id send from w payer =
      let cmd =
        build_invoke_cmd (or_default (or_else contract_id none) c.escrow_id) from c.network function
          args send in
      record {
        command = cmd;
        reads =
            read_command-build (or_default (or_else contract_id none) c.escrow_id) from c.network
              function args send;
        trace = elim (Option-cases (cli.run cmd w.0).0) [
          | inl stopped ↦ rw (payer, stopped) refl
          | inr (proc, ended) ↦
              rw (payer, ended)
                ((finish-SameTrace proc).at_state ((cli.run cmd w.0).1, w.1 ++ cmd ∷ []))
        ];
      }

  then_Told :
      {A B : Type 0} (i : Invocation) (m : Action (N × List (List String)) A)
      (f : A → Action (N × List (List String)) B) (w : N × List (List String))
      → ((a : A) → Stays SameTrace (f a))
      → Told i w (m w).1
      → Told i w ((m >>= f) w).1
  then_Told i m f w quiet t = elim (Result-cases (m w).0) [
    | inl (a, e) ↦ rw e (record {
      command = t.command;
      reads = t.reads;
      trace = (quiet a).at_state (m w).1 ∙ t.trace;
    })
    | inr (x, e) ↦ rw e t
  ]

  drop_Told :
      {A : Type 0} (i : Invocation) (m : Action (N × List (List String)) A)
      (w : N × List (List String))
      → Told i w (m w).1
      → Told i w (drop_result m w).1
  drop_Told i m w = then_Told i m (λ _. pure tt) w (λ _. Stays-result same (λ s. ok tt))

  abbrev cli' : Cli (N × List (List String))
  cli' = traced_cli cli

  pub perform-Told :
      (op : Operation) (from : String) (w : N × List (List String))
      → or_else (source_of op) c.source ≡ some from
      → Told (request cli c from op) w (perform (traced_cli cli) c op w).1
  unfolding create_intent attest release refund add_oracle get_intent balance encode_enum
  perform-Told (creates a source) from w payer =
      drop_Told _ (create_intent cli' c a source) w
        (invoke-Told "create_intent" (create_args cli c a) source none none from w payer)
  perform-Told (attests id oracle kind source) from w payer =
      drop_Told _ (attest cli' c id oracle kind source) w
        (invoke-Told "attest" _ source none none from w payer)
  perform-Told (releases id source) from w payer =
      drop_Told _ (release cli' c id source) w
        (invoke-Told "release" _ source none none from w payer)
  perform-Told (refunds id source) from w payer =
      drop_Told _ (refund cli' c id source) w (invoke-Told "refund" _ source none none from w payer)
  perform-Told (adds_oracle oracle source) from w payer =
      drop_Told _ (add_oracle cli' c oracle source) w
        (invoke-Told "add_oracle" _ source none none from w payer)
  perform-Told (gets_intent id) from w payer = drop_Told _ (get_intent cli' c id) w (
      then_Told _ (invoke cli' c "get_intent" (id_arg cli c id ∷ []) none none (some "no"))
        (λ r. pure r.value) w (λ r. Stays-result same (λ s. ok r.value))
        (invoke-Told "get_intent" _ none none (some "no") from w payer))
  perform-Told (reads_balance token_id address) from w payer =
      drop_Told _ (balance cli' c token_id address) w (
        then_Told _
          (invoke cli' c "balance" (("id", address) ∷ []) none (some token_id) (some "no"))
          (λ r. or_raise (cli.int_of r.value) other) w
          (λ r. Stays-or_raise same (cli.int_of r.value) other)
          (invoke-Told "balance" _ none (some token_id) (some "no") from w payer))
