-- ===== src/Flow/Paid/Executes.antt =====
-- `execute` of a proposed intent over the in-process chain funds its escrow.
use lumo.Base.{
  ℕ, ◌+◌, ◌≡◌, refl, ◌∙◌, Bool, true, false, ◌&&◌, Option, none, some, String, ◌==◌, row_count,
  length, Action, ok, pure, ◌>>=◌, if◌then◌else◌,
}
use lumo.Base.Ends.{Ends, Ends-bind, Ends-same}
use lumo.Models.{Status, TxArgs}
use lumo.Config.{Config}
use lumo.Chain.{InvokeResult}
use lumo.Chain.Mock
use lumo.Chain.Mock.{MockChain, MockIntent, mock_adapter, view, intent_at}
use lumo.Chain.Mock.Covered.{new_intent}
use lumo.Chain.Mock.Solvency.{IsSolvent}
use lumo.Db.Rows.{Intent, Supplier, Tables}
use lumo.Db.Queries.{is_proposed, set_status, supplier_by_id}
use lumo.Db.Repo.{Repo, claim_escrow}
use lumo.Flow.Steps.{World, on_repo}
use lumo.Flow.Execute.{paying_account, call_args, create, confirm, submit, execute, catch}
use lumo.Flow.Paid.Book.{IsBooked, with_chain_id, claim_escrow-IsBooked}
use lumo.Flow.Paid.Confirms.{IsAt, on_repo-IsAt, confirm-IsAt}
use lumo.Flow.Paid.Escrow.{IsPossible, create-IsHeld}

-- the arguments of the call of `create_intent`
abbrev pub args_of : String → Supplier → Intent → TxArgs
args_of sme payee row = record {
  sme = sme;
  supplier = payee.address;
  token = row.token;
  amount = row.amount;
  request_hash = row.request_hash;
  deadline = row.deadline;
}

-- the row when the escrow is confirmed
abbrev pub escrowed_row : ℕ → Intent → Intent
escrowed_row n row = set_status Status.escrowed (with_chain_id n (set_status Status.escrowed row))

claimed_account :
    (config : Config) (s t : Tables)
    → t.policy_rules ≡ s.policy_rules
    → paying_account config t ≡ paying_account config s
claimed_account config s t e = rw e refl

call_args-ok :
    (config : Config) (db : Tables) (row : Intent) (payee : Supplier) (sme : String)
    → paying_account config db ≡ some sme
    → supplier_by_id row.supplier_id db ≡ some payee
    → call_args row config db ≡ ok (args_of sme payee row)
unfolding call_args
call_args-ok config db row payee sme h k = rw (h, k) refl

module _ {E : Type 0} (id : String) (payee : Supplier) where
  module _ (tx_hash_of : String → ℕ → String) (lower : String → String) where
    created :
        (old : Intent) (source : String) (config : Config) (args : TxArgs) (result : InvokeResult)
        (w : World E MockChain)
        → call_args old config w.repo.db ≡ ok args
        → (Mock.create_intent tx_hash_of args source w.chain).0 ≡ ok result
        → catch
            (mock_adapter tx_hash_of)
            lower
            (create (mock_adapter tx_hash_of) lower old source config w)
            id
          ≡ (ok result, record w { chain = (Mock.create_intent tx_hash_of args source w.chain).1 })
    unfolding create
    created old source config args result w h k = rw (h, k) refl

    submit-IsAt :
        (old row : Intent) (source : String) (config : Config) (sme : String)
        (w : World E MockChain)
        → call_args old config w.repo.db ≡ ok (args_of sme payee old)
        → IsSolvent w.chain
        → IsPossible (args_of sme payee old) w.chain
        → IsBooked id row payee w.repo
        → Ends
            (IsAt id payee
              (set_status Status.escrowed (with_chain_id (length w.chain.intents + 1) row))
              (Mock.create_intent tx_hash_of (args_of sme payee old) source w.chain).1)
            (submit (mock_adapter tx_hash_of) lower id old source config)
            w
            (some (length w.chain.intents + 1))
    unfolding submit
    submit-IsAt old row source config sme w h v p b =
        let client = mock_adapter tx_hash_of in
        let args = args_of sme payee old in
        let n = length w.chain.intents + 1 in
        let c = (Mock.create_intent tx_hash_of args source w.chain).1 in
        let hash = tx_hash_of "create_intent" (w.chain.tx_count + 1) in
        let result : InvokeResult = record { value = some n; tx_hash = some hash } in
        let (r, held, _) = create-IsHeld tx_hash_of args source w.chain v p in
        Ends-bind (λ u. catch client lower (create client lower old source config u) id)
          (confirm client lower id old) w result (some n)
          (Ends-same {P = IsAt id payee row c}
            (λ u. catch client lower (create client lower old source config u) id)
            (λ _. (ok result, record w { chain = c })) w result
            (created old source config args result w h r)
            (record { returns = refl; after = record { booked = b; chain_is = refl } }))
          λ q.
            confirm-IsAt id payee tx_hash_of lower row old n hash (new_intent args) c _ held.held
              refl refl q

    claimed_rules : (s : Repo E) → (claim_escrow id s).1.db.policy_rules ≡ s.db.policy_rules
    unfolding claim_escrow
    claimed_rules s = refl

    pub execute-IsAt :
        (row : Intent) (source : String) (config : Config) (sme : String) (w : World E MockChain)
        → config.dry_run ≡ false
        → row.status ≡ Status.proposed
        → row_count (λ r. r.id == id && is_proposed r) w.repo.db.intents ≡ 1
        → paying_account config w.repo.db ≡ some sme
        → IsSolvent w.chain
        → IsPossible (args_of sme payee row) w.chain
        → IsBooked id row payee w.repo
        → Ends
            (IsAt id payee
              (escrowed_row (length w.chain.intents + 1) row)
              (Mock.create_intent tx_hash_of (args_of sme payee row) source w.chain).1)
            (execute (mock_adapter tx_hash_of) lower id source config)
            w
            (some (length w.chain.intents + 1))
    unfolding execute
    execute-IsAt row source config sme w dry open_ one acct v p b =
        let client = mock_adapter tx_hash_of in
        let go : Bool → Action (World E MockChain) (Option ℕ) =
          λ claimed. if claimed then submit client lower id row source config else pure none in
        let claim : Action (World E MockChain) Bool = on_repo (claim_escrow id) in
        let fits : is_proposed row ≡ true = rw open_ refl in
        let l = claim_escrow-IsBooked id payee row w.repo one fits b in
        let account =
          claimed_account config w.repo.db (claim w).1.repo.db (claimed_rules w.repo) ∙ acct in
        Ends-same _ (claim >>= go) w (some (length w.chain.intents + 1)) (rw (b.row_is, dry) refl) (
          Ends-bind claim go w true (some (length w.chain.intents + 1))
            (on_repo-IsAt id payee (set_status Status.escrowed row) w.chain (claim_escrow id) w true
              l refl)
            λ q.
              submit-IsAt row (set_status Status.escrowed row) source config sme (claim w).1
                (call_args-ok config (claim w).1.repo.db row payee sme account q.booked.payee_is) v
                p q.booked)
