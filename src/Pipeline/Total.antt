-- ===== src/Pipeline/Total.antt =====
-- `run` answers: it returns a result, and no plan for an amount that it cannot read.
use lumo.Pipeline.Settled.{IsPayable, IsRefusal, settle-Settled, any-map, named_supplier-known}
use lumo.Base.{
  Action, ℤ, ◌≡◌, refl, sym, ap, ◌∙◌, ◌⊎◌, inl, inr, true, false, Option, none, some, List, String,
  lookup, ok, Bool-cases, Option-cases, arith,
}
use lumo.Models.{ExtractedInvoice, PolicyContext, PipelineResult}
use lumo.Config.{Config}
use lumo.Injection.{Text}
use lumo.Policy.{evaluate}
use lumo.Policy.Verdict.{IsPermitted, evaluate-allowed_iff}
use lumo.Db.Rows.{Tables}
use lumo.Db.Queries.{known_request_hashes, supplier_addresses}
use lumo.Db.Repo.{Repo, intents_today}
use lumo.Db.Fresh.{Fresh, Frame}
use lumo.Pipeline.Amount.{to_stroops}
use lumo.Pipeline.Guards.{
  Outcome, ComputeReceipt, policy_engine, amount_cross_check, check, check_engine, check_amount,
}
use lumo.Pipeline.GuardChain.{is_refused, run_guards}
use lumo.Pipeline.Findings.{Services, Findings, findings_of, named_supplier}
use lumo.Pipeline.Run.{settle, examine, run, propose_guards, read_policy}
use lumo.Pipeline.Answers.{Asks, Refuses, Answer, run_guards-Answer}

-- The rules that `run` reads are there, and the caps are numbers.
pub record Readable {D : Type 0} (sv : Services D) (db : Tables) : Type 0 where
  pub sme : String
  pub token : String
  pub tx_text : String
  pub day_text : String
  pub cap_per_tx : ℤ
  pub cap_daily : ℤ
  pub sme_is : lookup "sme_address" db.policy_rules ≡ some sme
  pub token_is : lookup "token_address" db.policy_rules ≡ some token
  pub tx_is : lookup "cap_per_tx" db.policy_rules ≡ some tx_text
  pub day_is : lookup "cap_daily" db.policy_rules ≡ some day_text
  pub tx_number : sv.int_of tx_text ≡ some cap_per_tx
  pub day_number : sv.int_of day_text ≡ some cap_daily

module _ {E D : Type 0} (sv : Services D) where
  -- the policy and the findings that `examine` gives
  abbrev pub policy_of : (s : Repo E) → Readable sv s.db → PolicyContext
  policy_of s a = record {
    cap_per_tx = a.cap_per_tx;
    cap_daily = a.cap_daily;
    prior_intents = intents_today s;
    known_request_hashes = known_request_hashes s.db;
  }

  abbrev pub found :
      Text
      → Config
      → Option String
      → Option ComputeReceipt
      → ExtractedInvoice
      → (s : Repo E) → Readable sv s.db
      → Findings
  found text config cosign receipt e s a =
      findings_of sv text config cosign receipt e (named_supplier e.supplier_name s.db) s.now a.sme
        a.token (policy_of s a) (supplier_addresses s.db)

  examine-found :
      (text : Text) (config : Config) (cosign : Option String) (receipt : Option ComputeReceipt)
      (e : ExtractedInvoice) (s : Repo E) (a : Readable sv s.db)
      → sv.extract text ≡ ok e
      → examine sv text config cosign receipt s ≡ (ok (found text config cosign receipt e s a), s)
  unfolding examine read_policy
  examine-found text config cosign receipt e s a h =
      rw (h, a.sme_is, a.token_is, a.tx_is, a.tx_number, a.day_is, a.day_number) refl

  module _ (text : Text) (config : Config) (cosign : Option String)
      (receipt : Option ComputeReceipt) (e : ExtractedInvoice) (s : Repo E)
      (a : Readable sv s.db) where
    abbrev pub it : Findings
    it = found text config cosign receipt e s a

    pub it-Asks : Asks it.context
    it-Asks = record {
      req = it.request;
      policy = it.policy;
      stage_is = refl;
      request_is = refl;
      policy_is = refl;
    }

    cross_check-Refuses :
        it.amount ≡ none
        → Refuses sv.decimals sv.patterns sv.sha256_hex it.context
            (record { kind = amount_cross_check; enabled = true })
    unfolding check check_amount
    cross_check-Refuses h = record { applies_here = refl; refuses = λ db. rw h (_, refl, refl) }

    engine-Refuses :
        config.policy_engine ≡ true
        → (evaluate it.request it.policy).allowed ≡ false
        → Refuses sv.decimals sv.patterns sv.sha256_hex it.context
            (record { kind = policy_engine; enabled = config.policy_engine })
    unfolding check check_engine
    engine-Refuses on_ h = record {
      applies_here = rw on_ refl;
      refuses = λ db. rw h (_, refl, refl);
    }

    permitted-IsPayable :
        (t : Repo E) → Frame s t → IsPermitted it.request it.policy → IsPayable it t.db
    permitted-IsPayable t fr p = elim (Option-cases it.supplier) [
      | inr (r, is) ↦ record {
        supplier = r;
        amount = p.amount;
        supplier_is = is;
        amount_is = p.has_amount;
        row = record {
          known = rw fr.suppliers (named_supplier-known e.supplier_name s.db r is);
          unseen = rw fr.intents (any-map it.rhash s.db.intents p.fresh);
        };
        permitted = p;
      }
      | inl gone ↦
          (let missing : it.request.registry_address ≡ none = rw gone refl in
            absurd (ground (arith, sym missing ∙ p.registered)))
    ]

    abbrev pub guarded : Action (Repo E) (Outcome × List String)
    guarded = run_guards sv.decimals sv.patterns sv.sha256_hex (propose_guards config) it.context

    two_stops :
        (w : Answer sv.decimals sv.patterns sv.sha256_hex it.context (propose_guards config) s)
        → (Refuses sv.decimals sv.patterns sv.sha256_hex it.context
              (record { kind = policy_engine; enabled = config.policy_engine })
            → is_refused w.verdict.0 ≡ true)
          × (Refuses sv.decimals sv.patterns sv.sha256_hex it.context
                (record { kind = amount_cross_check; enabled = true })
              → is_refused w.verdict.0 ≡ true)
    unfolding propose_guards
    two_stops w = let (i, (p, (g, (b, (k, (h, (c, (x, _)))))))) = w.stops in (p, x)

    pub run-settle :
        (v : Outcome × List String)
        → sv.extract text ≡ ok e
        → (guarded s).0 ≡ ok v
        → run sv text config cosign receipt s ≡ settle it v.0 v.1 (guarded s).1
    unfolding run
    run-settle v h k = rw (examine-found text config cosign receipt e s a h, k) refl

    pub payable :
        (w : Answer sv.decimals sv.patterns sv.sha256_hex it.context (propose_guards config) s)
        → (config.policy_engine ≡ true) ⊎ (it.amount ≡ none)
        → (is_refused w.verdict.0 ≡ true) ⊎ IsPayable it (guarded s).1.db
    payable w (inr h) = inl ((two_stops w).1 (cross_check-Refuses h))
    payable w (inl on_) = elim (Bool-cases (evaluate it.request it.policy).allowed) [
      | inl fine ↦ inr (
          permitted-IsPayable (guarded s).1 w.live.frame
            ((evaluate-allowed_iff it.request it.policy).0 fine))
      | inr bad ↦ inl ((two_stops w).0 (engine-Refuses on_ bad))
    ]

  pub run-answers :
      (text : Text) (config : Config) (cosign : Option String) (receipt : Option ComputeReceipt)
      (e : ExtractedInvoice) (s : Repo E)
      → sv.extract text ≡ ok e
      → Readable sv s.db
      → Fresh s
      → (config.policy_engine ≡ true) ⊎ (to_stroops sv.decimals sv.patterns e.amount ≡ none)
      → (r : PipelineResult) × ((run sv text config cosign receipt s).0 ≡ ok r)
        × ((IsRefusal r × ((run sv text config cosign receipt s).1.db.intents ≡ s.db.intents))
            ⊎ (n : ℤ) × (to_stroops sv.decimals sv.patterns e.amount ≡ some n))
  run-answers text config cosign receipt e s h a fr c =
      let f = it text config cosign receipt e s a in
      let w =
        run_guards-Answer sv.decimals sv.patterns sv.sha256_hex (propose_guards config) f.context s
          (it-Asks text config cosign receipt e s a) fr in
      let t = (guarded text config cosign receipt e s a s).1 in
      let r =
        settle-Settled f w.verdict.0 w.verdict.1 t w.live.frame.fresh
          (payable text config cosign receipt e s a w c) in
      let same = run-settle text config cosign receipt e s a w.verdict h w.live.returns in
      (
        r.result,
        ap (λ x. x.0) same ∙ r.returns,
        elim (Option-cases (to_stroops sv.decimals sv.patterns e.amount)) [
          | inl empty ↦
              (let (refusal, kept) = r.refusal (
                  (two_stops text config cosign receipt e s a w).1
                    (cross_check-Refuses text config cosign receipt e s a empty)) in
                inl (refusal, ap (λ x. x.1.db.intents) same ∙ kept ∙ w.live.frame.intents))
          | inr amount ↦ inr amount
        ],
      )
