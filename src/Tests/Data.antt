-- ===== src/Tests/Data.antt =====
-- Inputs that the tests share.
use lumo.Base.{
  ℤ, pos, true, false, none, some, List, [], ◌∷◌, String, nat_eq, leb_ℤ, ◌&&◌, if◌then◌else◌, ok,
}
use lumo.Models.{Status}
use lumo.Chain.{shipped}
use lumo.Injection.{Scanner}
use lumo.Db.Rows.{Intent, Attestation, Tables}
use lumo.Db.Repo.{Repo}
use lumo.Pipeline.Amount.{Decimals, AmountPatterns}
use lumo.Pipeline.Findings.{Services}

abbrev pub keep : String → String
keep s = s

abbrev pub whole : Decimals ℤ
whole = record {
  parse = λ s. some (pos 5);
  is_finite = λ d. true;
  times_stroop = λ d. some d;
  to_integer = λ d. some d;
  of_stroops = λ a. a;
  equal = λ a b. leb_ℤ a b && leb_ℤ b a;
}

abbrev pub patterns : AmountPatterns
patterns = record { labeled = λ t. []; numbers = λ t. "5" ∷ []; human_amount = λ s. none }

abbrev pub scanner : Scanner
scanner = record { nfkc = λ t. t; search = λ rx t. false; find_all = λ rx t. [] }

abbrev pub services : Services ℤ
services = record {
  scanner = scanner;
  decimals = whole;
  patterns = patterns;
  sha256_hex = keep;
  request_hash = λ f. "H1";
  extract = λ t. ok (record {
    invoice_ref = some "INV";
    supplier_name = some "Acme";
    payment_address = some "SUP";
    amount = some "5";
    currency = none;
  });
  int_of = λ s. some (pos 10);
}

abbrev pub row : Intent
row = record {
  id = "I1";
  request_hash = "H1";
  supplier_id = "S1";
  amount = pos 5;
  token = "T";
  deadline = pos 3600;
  status = Status.proposed;
  chain_intent_id = none;
  invoice_ref = none;
  created_at = 0;
}

abbrev pub tables : List Intent → List Attestation → Tables
tables rows signed = record {
  suppliers = record { id = "S1"; name = "Acme"; address = "SUP" } ∷ [];
  policy_rules =
      ("sme_address", "SME")
      ∷ ("token_address", "T")
      ∷ ("cap_per_tx", "10")
      ∷ ("cap_daily", "10")
      ∷ [];
  intents = rows;
  decisions = [];
  chain_txs = [];
  anchor_payouts = [];
  attestations = signed;
  events = [];
}

abbrev pub signed : List Attestation
signed =
    record {
      id = "A1";
      intent_id = "I1";
      oracle_address = "ORA";
      kind = shipped;
      request_hash = "H1";
    }
    ∷ []

abbrev pub repo : List Intent → Repo (Unit {0})
repo rows = record {
  db = tables rows signed;
  bus = record { enabled = false; subscribers = []; recent = []; env = tt };
  now = 0;
  ids = λ n. if nat_eq n 0 then "D1" else "I1";
  minted = 0;
}
