-- ===== src/Models.antt =====
-- lumo/models.py: the records that pass between the components. Python's ints are unbounded and
-- signed, so amounts, caps and deadlines are integers.
use lumo.Base.{ℤ, Bool, true, false, Option, List, String}

-- `PriorIntent.status`, which is also the column `intents.status` with its CHECK constraint.
pub data Status : Type 0 where
  proposed held escrowed released reverted : Status

abbrev pub status_eq : Status → Status → Bool
status_eq Status.proposed Status.proposed = true
status_eq Status.held Status.held = true
status_eq Status.escrowed Status.escrowed = true
status_eq Status.released Status.released = true
status_eq Status.reverted Status.reverted = true
status_eq _ _ = false

pub record ExtractedInvoice : Type 0 where
  pub invoice_ref : Option String
  pub supplier_name : Option String
  pub payment_address : Option String
  pub amount : Option String
  pub currency : Option String

pub record PriorIntent : Type 0 where
  pub amount : ℤ
  pub status : Status

pub record PaymentRequest : Type 0 where
  pub supplier_name : Option String
  pub registry_address : Option String
  pub invoice_address : Option String
  pub amount_stroops : Option ℤ
  pub request_hash : String
  pub injection_flags : List String

pub record PolicyContext : Type 0 where
  pub cap_per_tx : ℤ
  pub cap_daily : ℤ
  pub prior_intents : List PriorIntent
  pub known_request_hashes : List String

pub record Evaluation : Type 0 where
  pub allowed : Bool
  pub codes : List String

pub record IntentDraft : Type 0 where
  pub supplier_id : String
  pub amount : ℤ
  pub token : String
  pub deadline : ℤ
  pub invoice_ref : Option String
  pub request_hash : String

pub record TxArgs : Type 0 where
  pub sme : String
  pub supplier : String
  pub token : String
  pub amount : ℤ
  pub request_hash : String
  pub deadline : ℤ

-- `TxPlan.function` is always `create_intent`.
pub record TxPlan : Type 0 where
  pub args : TxArgs

pub data Decision : Type 0 where
  proposed held refused : Decision

pub record PipelineResult : Type 0 where
  pub decision : Decision
  pub codes : List String
  pub flags : List String
  pub request_hash : String
  pub tx_plan : Option TxPlan
  pub intent_id : Option String
