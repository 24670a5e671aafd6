-- ===== src/Testtool/Pays.antt =====
-- `run_invoice` over the in-process chain pays what it proposes.
use lumo.Base.{
  ℕ, ℤ, ◌+ℤ◌, ◌≡◌, ◌≢◌, refl, ap, sym, ◌∙◌, subst, ◌⊎◌, inl, inr, true, false, none, some, [],
  String, Action, Result, ok, err, ◌>>=◌, bind_result,
}
use lumo.Base.Ends.{Ends, Ends-bind}
use lumo.Models.{Status, ExtractedInvoice, PipelineResult, Decision}
use lumo.Config.{Config}
use lumo.Injection.{Text}
use lumo.Chain.Mock.{MockChain, mock_adapter, balance_of}
use lumo.Db.Rows.{Intent, Supplier}
use lumo.Db.Queries.{intent}
use lumo.Pipeline.Findings.{Services, named_supplier}
use lumo.Pipeline.Run.{run}
use lumo.Pipeline.Total.{Readable}
use lumo.Pipeline.Proposal.{run-Ended}
use lumo.Flow.Steps.{World}
use lumo.Flow.Paid.{IsPlain, pay, pay-Ends}
use lumo.Flow.Paid.Settles.{IsDone}
use lumo.Testtool.Fundable
use lumo.Testtool.Fundable.{IsProvided, fundable}
use lumo.Flow.Execute.{execute}
use lumo.Flow.Settle.{attest, release}
use lumo.Chain.{shipped}
use lumo.Db.Queries.{chain_txs}
use lumo.Pipeline.Amount.{to_stroops}
use lumo.Sdk.{propose}
use lumo.Testtool.{
  is_proposal, steps_of, step_of_action, hashes_from, Report, run_invoice, settle_proposal,
  report_of,
}

bind_assoc :
    {S A B C : Type 0} (c : Result A × S) (f : A → Action S B) (g : B → Action S C)
    → bind_result (bind_result c.0 c.1 f).0 (bind_result c.0 c.1 f).1 g
      ≡ bind_result c.0 c.1 (λ a. f a >>= g)
bind_assoc (ok a, t) f g = refl
bind_assoc (err x, t) f g = refl

three_assoc :
    {S A B C F : Type 0} (c : Result A × S) (n : Action S B) (o : Action S C) (k : C → Action S F)
    → bind_result
        (bind_result c.0 c.1 (λ _. n >>= λ _. o)).0
        (bind_result c.0 c.1 (λ _. n >>= λ _. o)).1
        k
      ≡ bind_result c.0 c.1 (λ _. n >>= λ _. o >>= k)
three_assoc (ok a, t) n o k = bind_assoc (n t) (λ _. o) k
three_assoc (err x, t) n o k = refl

-- The report names an intent that is released, and the supplier has the amount that the model
-- extracted more than before.
pub record IsPaid {E D : Type 0} (sv : Services D) (e : ExtractedInvoice) (token : String)
    (w w' : World E MockChain) (report : Report) : Type 0 where
  pub id : String
  pub row : Intent
  pub payee : Supplier
  pub amount : ℤ
  pub decision : report.decision ≡ Decision.proposed
  pub reported : report.intent_id ≡ some id
  pub row_is : intent id w'.repo.db ≡ some row
  pub released : row.status ≡ Status.released
  pub supplier : named_supplier e.supplier_name w.repo.db ≡ some payee
  pub extracted : to_stroops sv.decimals sv.patterns e.amount ≡ some amount
  pub paid :
      balance_of token payee.address w'.chain ≡ balance_of token payee.address w.chain +ℤ amount

not_proposal : (d : Decision) → d ≢ Decision.proposed → is_proposal d ≡ false
not_proposal Decision.proposed h = absurd (h refl)
not_proposal Decision.held h = refl
not_proposal Decision.refused h = refl

module _ {E D : Type 0} (tx_hash_of : String → ℕ → String) (lower : String → String)
    (sv : Services D) (source oracle_source : String) where
  -- the report on the transactions of an intent
  abbrev reported_on : PipelineResult → String → Action (World E MockChain) Report
  reported_on r id w = (
    ok (report_of r (some id) (steps_of step_of_action (hashes_from (chain_txs id w.repo.db) []))),
    w,
  )

  settle-pay :
      (config : Config) (r : PipelineResult) (id : String) (v : World E MockChain)
      → settle_proposal (mock_adapter tx_hash_of) lower sv source oracle_source config r (some id) v
        ≡ (pay tx_hash_of lower sv.decimals sv.patterns sv.sha256_hex id config source
                config.oracle_address oracle_source
              >>= λ _. reported_on r id)
            v
  unfolding settle_proposal
  settle-pay config r id v = sym (
      three_assoc (execute (mock_adapter tx_hash_of) lower id source config v)
        (attest (mock_adapter tx_hash_of) id shipped config.oracle_address oracle_source none)
        (release (mock_adapter tx_hash_of) sv.decimals sv.patterns sv.sha256_hex id source config)
        (λ _. reported_on r id))

  abbrev tool : Config → Text → Action (World E MockChain) Report
  tool config text = run_invoice (mock_adapter tx_hash_of) lower sv source oracle_source config text

  tool-refuses :
      (config : Config) (text : Text) (w : World E MockChain) (r : PipelineResult)
      → (run sv text config none none w.repo).0 ≡ ok r
      → r.decision ≢ Decision.proposed
      → tool config text w
        ≡ (ok (report_of r none []), record w { repo = (run sv text config none none w.repo).1 })
  unfolding run_invoice propose
  tool-refuses config text w r h d = rw (h, not_proposal r.decision d) refl

  tool-settles :
      (config : Config) (text : Text) (w : World E MockChain) (r : PipelineResult) (id : String)
      → (run sv text config none none w.repo).0 ≡ ok r
      → r.decision ≡ Decision.proposed
      → r.intent_id ≡ some id
      → tool config text w
        ≡ settle_proposal
            (mock_adapter tx_hash_of)
            lower
            sv
            source
            oracle_source
            config
            r
            (some id)
            (record w { repo = (run sv text config none none w.repo).1 })
  unfolding run_invoice propose
  tool-settles config text w r id h d i = rw (h, d, i) refl

  pub run_invoice-pays :
      (text : Text) (config : Config) (e : ExtractedInvoice) (sme : String) (w : World E MockChain)
      → sv.extract text ≡ ok e
      → (a : Readable sv w.repo.db) → IsProvided sv config e.supplier_name sme w a
      → config.policy_engine ≡ true
      → IsPlain config
      → (report : Report) × ((run_invoice
            (mock_adapter tx_hash_of)
            lower
            sv
            source
            oracle_source
            config
            text
            w).0
          ≡ ok report)
        × (((report.decision ≢ Decision.proposed)
              × ((run_invoice
                    (mock_adapter tx_hash_of)
                    lower
                    sv
                    source
                    oracle_source
                    config
                    text
                    w).1.chain
                  ≡ w.chain))
            ⊎ IsPaid sv e a.token w
                (run_invoice
                  (mock_adapter tx_hash_of)
                  lower
                  sv
                  source
                  oracle_source
                  config
                  text
                  w).1
                report)
  run_invoice-pays text config e sme w h a pv on_ plain =
      let (r, done, codes, end, before) =
        run-Ended sv text config none none e w.repo h a pv.unused.fresh on_ in
      let t = (run sv text config none none w.repo).1 in
      elim end [
        | inl d ↦
            (let same = tool-refuses config text w r done d in
              (report_of r none [], ap (λ x. x.0) same, inl (d, ap (λ x. x.1.chain) same)))
        | inr p ↦
            (let v : World E MockChain = record w { repo = t } in
              let id = Fundable.id sv text config e sme w a pv codes t r before p in
              let row = Fundable.row sv text config e sme w a pv codes t r before p in
              let (c, l, paid) =
                pay-Ends tx_hash_of lower sv.decimals sv.patterns sv.sha256_hex id row
                  p.pay.supplier sme config source config.oracle_address oracle_source v plain
                  (fundable sv text config e sme w a pv codes t r before p) in
              let same =
                tool-settles config text w r id done p.decision p.id_is
                ∙ settle-pay config r id v in
              let go =
                pay tx_hash_of lower sv.decimals sv.patterns sv.sha256_hex id config source
                  config.oracle_address oracle_source in
              let report =
                report_of r (some id)
                  (steps_of step_of_action (hashes_from (chain_txs id (go v).1.repo.db) [])) in
              let all_ : Ends (IsDone id p.pay.supplier tx_hash_of c) (go >>= λ _. reported_on r id)
                  v report =
                Ends-bind go (λ _. reported_on r id) v Status.released report l
                  λ q. record { returns = refl; after = q } in
              let last_ : IsDone id p.pay.supplier tx_hash_of c (tool config text w).1 =
                subst (λ x. IsDone id p.pay.supplier tx_hash_of c x.1) (sym same) all_.after in
              (
                report,
                ap (λ x. x.0) same ∙ all_.returns,
                inr (record {
                  id = id;
                  row = last_.row;
                  payee = p.pay.supplier;
                  amount = p.pay.amount;
                  decision = p.decision;
                  reported = refl;
                  row_is = last_.row_is;
                  released = last_.status_is;
                  supplier = p.pay.supplier_is;
                  extracted = p.pay.amount_is;
                  paid = ap (balance_of a.token p.pay.supplier.address) last_.chain_is ∙ paid;
                }),
              ))
      ]
