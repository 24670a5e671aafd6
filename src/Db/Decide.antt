-- ===== src/Db/Decide.antt =====
-- `Repo.record_decision` of lumo/db/repo.py.
pub mod Stays
pub mod Events
pub mod Returns
use lumo.Base.{
  ℕ, ◌+◌, Bool, true, false, ◌||◌, not, Option, none, some, List, [], ◌∷◌, String, ◌==◌,
  if◌then◌else◌, is_some, update, Action, ok, value_error, other, pure, gets, raise, ◌>>=◌, ◌>>◌,
  modify, raise_if,
}
use lumo.Models.{Status, IntentDraft}
use lumo.Monitor.{Value, text, texts}
use lumo.Db.Rows.{Intent, DecisionName, DecisionRow, Tables, insert_intent, insert_decision}
use lumo.Db.Queries.{transaction, set_status}
use lumo.Db.Repo.{Repo, on_db, new_id, emit}

-- The keyword arguments of `record_decision`.
pub record Decision : Type 0 where
  pub decision : DecisionName
  pub codes : List String
  pub request_hash : String
  pub intent : Option IntentDraft
  pub intent_id : Option String
  pub detail : Option String

pub record DecisionOutcome : Type 0 where
  pub decision_id : String
  pub intent_id : Option String

-- DECISION_EVENTS
abbrev pub event_name : DecisionName → String
event_name DecisionName.proposed = "intent.proposed"
event_name DecisionName.held = "intent.held"
event_name DecisionName.refused = "intent.refused"
event_name DecisionName.approved = "intent.escrowed"
event_name DecisionName.reverted = "intent.reverted"

-- The checks before anything is written: true if the arguments are refused.
abbrev pub is_malformed : DecisionName → Option IntentDraft → Option String → Bool
is_malformed DecisionName.proposed draft id = not (is_some draft)
is_malformed DecisionName.held draft id = not (is_some draft)
is_malformed DecisionName.approved draft id = not (is_some id)
is_malformed DecisionName.reverted draft id = not (is_some id)
is_malformed DecisionName.refused draft id = is_some draft || is_some id

abbrev pub new_intent : String → Status → IntentDraft → ℕ → Intent
new_intent id status draft now = record {
  id = id;
  request_hash = draft.request_hash;
  supplier_id = draft.supplier_id;
  amount = draft.amount;
  token = draft.token;
  deadline = draft.deadline;
  status = status;
  chain_intent_id = none;
  invoice_ref = draft.invoice_ref;
  created_at = now;
}

abbrev pub set_intent_status : Option String → Status → Action Tables (Unit {0})
set_intent_status none st = modify (λ db. db)
set_intent_status (some id) st =
    modify (λ db. record db { intents = update (λ r. r.id == id) (set_status st) db.intents })

abbrev pub draft_intent : Option IntentDraft → String → Status → ℕ → Action Tables (Unit {0})
draft_intent none id st now = raise other
draft_intent (some draft) id st now = insert_intent (new_intent id st draft now)

-- The change to `intents` that goes with the decision.
abbrev pub write_intents :
    DecisionName → Option IntentDraft → Option String → String → ℕ → Action Tables (Unit {0})
write_intents DecisionName.proposed draft id new now = draft_intent draft new Status.proposed now
write_intents DecisionName.held draft id new now = draft_intent draft new Status.held now
write_intents DecisionName.approved draft id new now = set_intent_status id Status.escrowed
write_intents DecisionName.reverted draft id new now = set_intent_status id Status.reverted
write_intents DecisionName.refused draft id new now = modify (λ db. db)

-- A proposed or held intent gets an id of its own.
abbrev pub makes_intent : DecisionName → Bool
makes_intent DecisionName.proposed = true
makes_intent DecisionName.held = true
makes_intent _ = false

abbrev pub id_text : Option String → String
id_text none = ""
id_text (some id) = id

abbrev pub decision_row : Decision → String → Option String → DecisionRow
decision_row d id intent_id = record {
  id = id;
  decision = d.decision;
  codes = d.codes;
  request_hash = d.request_hash;
  intent_id = intent_id;
  detail = d.detail;
}

abbrev pub decision_payload : Decision → String → Option String → List (String × Value)
decision_payload d decision_id intent_id =
    ("decision_id", text (some decision_id))
    ∷ ("intent_id", text intent_id)
    ∷ ("request_hash", text (some d.request_hash))
    ∷ ("codes", texts d.codes)
    ∷ []

module _ {E : Type 0} where
  abbrev pub intent_id_of : Decision → Action (Repo E) (Option String)
  intent_id_of d s =
      if makes_intent d.decision
      then (ok (some (s.ids s.minted)), record s { minted = s.minted + 1 })
      else (ok d.intent_id, s)

  unfoldable pub record_decision : Decision → Action (Repo E) DecisionOutcome
  record_decision d = do
    raise_if (is_malformed d.decision d.intent d.intent_id) value_error
    decision_id ← new_id
    intent_id ← intent_id_of d
    now ← gets (λ s. s.now)
    on_db (
        transaction (
          write_intents d.decision d.intent d.intent_id (id_text intent_id) now
          >> insert_decision (decision_row d decision_id intent_id)))
    emit (event_name d.decision) (decision_payload d decision_id intent_id)
    pure (record { decision_id = decision_id; intent_id = intent_id })
