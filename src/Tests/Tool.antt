-- ===== src/Tests/Tool.antt =====
-- The model providers (lumo/llm) and the payment test tool (lumo/testtool.py) on small inputs.
use lumo.Base.{
  ap, ℤ, subst, ℕ, zero, suc, pos, ◌≡◌, ◌≢◌, refl, ◌⊎◌, inl, true, false, none, some, [], ◌∷◌,
  String, ◌==◌, eq_iff, ok, err, http_error, arith, int_laws,
}
use lumo.Models.{ExtractedInvoice, PipelineResult, Decision}
use lumo.Config.{defaults}
use lumo.Injection.{Text}
use lumo.Anchor.{build_anchor}
use lumo.Chain.Mock.{MockChain, mock_adapter, vault}
use lumo.Chain.Mock.Solvency.{escrowed}
use lumo.Db.Rows.{Supplier}
use lumo.Db.Repo.{Repo}
use lumo.Db.Fresh.{Fresh}
use lumo.Pipeline.Findings.{named_supplier}
use lumo.Pipeline.Run.{run}
use lumo.Pipeline.Amount.{to_stroops}
use lumo.Pipeline.Settled.{IsRefusal}
use lumo.Pipeline.Total.{Readable, run-answers}
use lumo.Flow.Steps.{World}
use lumo.Flow.Paid.{IsPlain}
use lumo.Llm.{LlamaServer, is_handled, ask}
use lumo.Llm.Unusable.{served, run-unusable}
use lumo.Testtool.{Report, run_invoice}
use lumo.Testtool.Fundable.{IsProvided}
use lumo.Testtool.Pays.{IsPaid, run_invoice-pays}
use lumo.Tests.Data.{keep, whole, patterns, services, tables}

abbrev id_of : ℕ → String
id_of zero = String.[]
id_of (suc n) = String.◌∷◌ "x" (id_of n)

abbrev tail : String → String
tail String.[] = String.[]
tail (String.◌∷◌ c s) = s

id_of-distinct : (i j : ℕ) → id_of i ≡ id_of j → i ≡ j
id_of-distinct zero zero h = refl
id_of-distinct zero (suc j) h = cc
id_of-distinct (suc i) zero h = cc
id_of-distinct (suc i) (suc j) h = ap suc (id_of-distinct i j (ap tail h))

abbrev store : Repo (Unit {0})
store = record {
  db = tables [] [];
  bus = record { enabled = true; subscribers = []; recent = []; env = tt };
  now = 0;
  ids = id_of;
  minted = 0;
}

abbrev letter : Text
letter = b'5' ∷ []

store-Fresh : Fresh store
store-Fresh = record {
  distinct = id_of-distinct;
  decisions = λ k h. refl;
  intents = λ k h. refl;
  events = λ k h. refl;
  quiet = tt;
}

abbrev invoice : ExtractedInvoice
invoice = record {
  invoice_ref = some "INV";
  supplier_name = some "Acme";
  payment_address = some "SUP";
  amount = some "5";
  currency = none;
}

abbrev store_rules : Readable services store.db
store_rules = record {
  sme = "SME";
  token = "T";
  tx_text = "10";
  day_text = "10";
  cap_per_tx = pos 10;
  cap_daily = pos 10;
  sme_is = refl;
  token_is = refl;
  tx_is = refl;
  day_is = refl;
  tx_number = refl;
  day_number = refl;
}

run-answers_example :
    (r : PipelineResult) × ((run services letter defaults none none store).0 ≡ ok r)
    × ((IsRefusal r × ((run services letter defaults none none store).1.db.intents ≡ []))
        ⊎ (n : ℤ) × (to_stroops whole patterns (some "5") ≡ some n))
run-answers_example =
    run-answers services letter defaults none none invoice store refl store_rules store-Fresh
      (inl refl)

-- the server cannot be reached
abbrev offline : LlamaServer (Unit {0}) (Unit {0})
offline = record {
  post = λ url body s. (err http_error, s);
  raise_for_status = λ r. ok tt;
  decode = λ r. err http_error;
  model_validate_json = λ v. err http_error;
  as_string = λ t. "";
}

offline_raises : (ask offline letter tt).0 ≡ err http_error
unfolding ask
offline_raises = refl

abbrev offline_rules : Readable (served offline tt services) store.db
offline_rules = record {
  sme = "SME";
  token = "T";
  tx_text = "10";
  day_text = "10";
  cap_per_tx = pos 10;
  cap_daily = pos 10;
  sme_is = refl;
  token_is = refl;
  tx_is = refl;
  day_is = refl;
  tx_number = refl;
  day_number = refl;
}

run-unusable_example :
    ((is_handled http_error ≡ true)
      × (r : PipelineResult) × ((run (served offline tt services) letter defaults none none store).0
          ≡ ok r)
      × IsRefusal r
      × ((run (served offline tt services) letter defaults none none store).1.db.intents ≡ []))
    ⊎ (is_handled http_error ≡ false)
      × (run (served offline tt services) letter defaults none none store ≡ (err http_error, store))
run-unusable_example =
    run-unusable offline services letter defaults none none tt http_error store offline_raises
      offline_rules store-Fresh

abbrev purse : MockChain
purse = record { now = pos 0; intents = []; balances = ("T", "SME", pos 20) ∷ []; tx_count = 0 }

abbrev world : World (Unit {0}) MockChain
world = record { repo = store; chain = purse }

abbrev hash_of : String → ℕ → String
hash_of action n = action

differ : (a b : String) → a == b ≡ false → a ≢ b
differ a b h e = ground (arith, eq_iff a b)

abbrev acme : Supplier
acme = record { id = "S1"; name = "Acme"; address = "SUP" }

acme_only : (r : Supplier) → named_supplier (some "Acme") store.db ≡ some r → acme ≡ r
acme_only r h = ground arith

world-IsProvided : IsProvided services defaults (some "Acme") "SME" world store_rules
unfolding escrowed
world-IsProvided = record {
  unused = record {
    fresh = store-Fresh;
    txs = λ k h. refl;
    payouts = λ k h. refl;
    refs = λ k h. refl;
    named = λ r h. rw (← acme_only r h) refl;
  };
  account = refl;
  payer = differ "SME" vault refl;
  payee = λ r h.
      subst (λ (x : Supplier). (x.address ≢ vault) × (x.address ≢ "SME")) (acme_only r h)
        (differ "SUP" vault refl, differ "SUP" "SME" refl);
  solvent = record { covered = λ t. ground arith; sound = tt };
  covered = omega int_laws;
}

defaults-IsPlain : IsPlain defaults
unfolding build_anchor
defaults-IsPlain = record { live = refl; unattested = refl; alone = refl; anchor = refl }

run_invoice-pays_example :
    (report : Report) × ((run_invoice
        (mock_adapter hash_of)
        keep
        services
        "SME"
        "ORA"
        defaults
        letter
        world).0
      ≡ ok report)
    × (((report.decision ≢ Decision.proposed)
          × ((run_invoice
                (mock_adapter hash_of)
                keep
                services
                "SME"
                "ORA"
                defaults
                letter
                world).1.chain
              ≡ purse))
        ⊎ IsPaid services invoice "T" world
            (run_invoice (mock_adapter hash_of) keep services "SME" "ORA" defaults letter world).1
            report)
run_invoice-pays_example =
    run_invoice-pays hash_of keep services "SME" "ORA" letter defaults invoice "SME" world refl
      store_rules world-IsProvided refl defaults-IsPlain
