-- ===== src/Pipeline/Findings.antt =====
-- lumo/pipeline.py: what `run` has found out about an invoice when it asks the guards. What
-- the model extracts, SHA-256 over canonical JSON and `int` of a text are parameters.
use lumo.Base.{
  ℕ, ℤ, pos, ◌+ℤ◌, Bool, false, not, Option, none, some, List, [], ◌∷◌, String, ◌==◌, if◌then◌else◌,
  select, or_default, Result,
}
use lumo.Models.{
  ExtractedInvoice, PaymentRequest, PolicyContext, IntentDraft, TxPlan, PipelineResult, Decision,
}
use lumo.Config.{Config}
use lumo.Injection.{Text, Scanner, ScanResult, scan}
use lumo.Db.Rows.{Supplier, Tables}
use lumo.Db.Queries.{supplier_by_name}
use lumo.Pipeline.Amount.{Decimals, AmountPatterns, to_stroops}
use lumo.Pipeline.Guards.{propose, ComputeReceipt, GuardContext}

-- The fields of which `request_hash` is the digest.
pub record HashFields : Type 0 where
  pub sme : String
  pub supplier : String
  pub token : String
  pub amount : ℤ
  pub invoice_ref : String

-- What `run` calls beside the repository and the guards.
pub record Services (D : Type 0) : Type 0 where
  pub scanner : Scanner
  pub decimals : Decimals D
  pub patterns : AmountPatterns
  pub sha256_hex : String → String
  pub request_hash : HashFields → String
  pub extract : Text → Result ExtractedInvoice
  pub int_of : String → Option ℤ

abbrev pub unscanned : Text → ScanResult
unscanned text = record { flags = []; normalized_text = text; addresses = [] }

abbrev pub address_of : Option Supplier → Option String
address_of none = none
address_of (some s) = some s.address

abbrev pub is_address : Option String → String → Bool
is_address none a = false
is_address (some r) a = a == r

-- `foreign[0] if foreign else extracted.payment_address`
abbrev pub first_foreign : List String → Option String → Option String
first_foreign [] payment = payment
first_foreign (a ∷ rest) payment = some a

abbrev pub named_supplier : Option String → Tables → Option Supplier
named_supplier none db = none
named_supplier (some n) db = if n == "" then none else supplier_by_name n db

-- What `run` has found out about an invoice before the guards.
pub record Findings : Type 0 where
  pub scanned : ScanResult
  pub extracted : ExtractedInvoice
  pub supplier : Option Supplier
  pub amount : Option ℤ
  pub sme : String
  pub token : String
  pub deadline : ℤ
  pub rhash : String
  pub request : PaymentRequest
  pub policy : PolicyContext
  pub context : GuardContext

abbrev pub payment_request :
    ScanResult → ExtractedInvoice → Option Supplier → Option ℤ → String → PaymentRequest
payment_request scanned extracted supplier amount rhash =
    let foreign = select (λ a. not (is_address (address_of supplier) a)) scanned.addresses in
    record {
      supplier_name = extracted.supplier_name;
      registry_address = address_of supplier;
      invoice_address = first_foreign foreign extracted.payment_address;
      amount_stroops = amount;
      request_hash = rhash;
      injection_flags = scanned.flags;
    }

abbrev pub draft_of : Findings → String → ℤ → IntentDraft
draft_of f supplier_id amount = record {
  supplier_id = supplier_id;
  amount = amount;
  token = f.token;
  deadline = f.deadline;
  invoice_ref = f.extracted.invoice_ref;
  request_hash = f.rhash;
}

abbrev pub plan_of : Findings → String → ℤ → TxPlan
plan_of f address amount = record {
  args = record {
    sme = f.sme;
    supplier = address;
    token = f.token;
    amount = amount;
    request_hash = f.rhash;
    deadline = f.deadline;
  };
}

abbrev pub result_of :
    Findings → Decision → List String → Option TxPlan → Option String → PipelineResult
result_of f decision codes plan id = record {
  decision = decision;
  codes = codes;
  flags = f.scanned.flags;
  request_hash = f.rhash;
  tx_plan = plan;
  intent_id = id;
}

module _ {D : Type 0} (sv : Services D) where
  -- the scan, if the configuration asks for it
  abbrev pub scanned_text : Config → Text → ScanResult
  scanned_text config text = if config.injection_scan then scan sv.scanner text else unscanned text

  abbrev pub hash_of : ExtractedInvoice → Option Supplier → String → String → String
  hash_of extracted supplier sme token = sv.request_hash (record {
    sme = sme;
    supplier = or_default (address_of supplier) "";
    token = token;
    amount = or_default (to_stroops sv.decimals sv.patterns extracted.amount) (pos 0);
    invoice_ref = or_default extracted.invoice_ref "";
  })

  -- the values that `run` has computed when it builds the context of the guards
  abbrev pub findings_of :
      Text
      → Config
      → Option String
      → Option ComputeReceipt
      → ExtractedInvoice
      → Option Supplier
      → ℕ
      → String
      → String
      → PolicyContext
      → List String
      → Findings
  findings_of text config cosign receipt extracted supplier now sme token policy addresses =
      let scanned = scanned_text config text in
      let amount = to_stroops sv.decimals sv.patterns extracted.amount in
      let rhash = hash_of extracted supplier sme token in
      let request = payment_request scanned extracted supplier amount rhash in
      record {
        scanned = scanned;
        extracted = extracted;
        supplier = supplier;
        amount = amount;
        sme = sme;
        token = token;
        deadline = pos now +ℤ config.deadline_secs;
        rhash = rhash;
        request = request;
        policy = policy;
        context = record {
          stage = propose;
          request = some request;
          policy = some policy;
          supplier_addresses = addresses;
          cosign_token = cosign;
          compute_receipt = receipt;
          intent = none;
          invoice_text = scanned.normalized_text;
        };
      }
