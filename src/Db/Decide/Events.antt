-- ===== src/Db/Decide/Events.antt =====
-- The transaction of `record_decision` writes no event.
use lumo.Base.{ℕ, ◌≡◌, refl, ◌∙◌, Option, none, some, String, Action, Result, ok, err, other, arith}
use lumo.Base.Stays.{Stays, IsPreorder, Stays-result, Stays-bind}
use lumo.Models.{Status, IntentDraft}
use lumo.Db.Rows.{Intent, DecisionName, DecisionRow, Tables, insert_intent, insert_decision}
use lumo.Db.Queries.{transaction, commit_or_rollback}
use lumo.Db.Decide.{
  Decision, write_intents, draft_intent, set_intent_status, new_intent, decision_row, id_text,
}
use lumo.Db.Decide.Stays.{writes}

-- The events are as they were.
pub record SameEvents (db db' : Tables) : Type 0 where
  pub events : db'.events ≡ db.events

pub SameEvents-preorder : IsPreorder SameEvents
SameEvents-preorder = record {
  start = λ db. record { events = refl };
  chain = λ a b c f g. record { events = g.events ∙ f.events };
}

insert_intent-SameEvents : (r : Intent) (db : Tables) → (insert_intent r db).1.events ≡ db.events
unfolding insert_intent
insert_intent-SameEvents r db = ground arith

insert_decision-SameEvents :
    (r : DecisionRow) (db : Tables) → (insert_decision r db).1.events ≡ db.events
unfolding insert_decision
insert_decision-SameEvents r db = ground arith

set_status-SameEvents :
    (o : Option String) (st : Status) → Stays SameEvents (set_intent_status o st)
set_status-SameEvents none st = record { at_state = λ db. record { events = refl } }
set_status-SameEvents (some id) st = record { at_state = λ db. record { events = refl } }

draft-SameEvents :
    (o : Option IntentDraft) (id : String) (st : Status) (now : ℕ)
    → Stays SameEvents (draft_intent o id st now)
draft-SameEvents none id st now = Stays-result SameEvents-preorder (λ db. err other)
draft-SameEvents (some draft) id st now = record {
  at_state = λ db. record { events = insert_intent-SameEvents (new_intent id st draft now) db };
}

write_intents-SameEvents :
    (d : DecisionName) (draft : Option IntentDraft) (id : Option String) (new : String) (now : ℕ)
    → Stays SameEvents (write_intents d draft id new now)
write_intents-SameEvents DecisionName.proposed draft id new now =
    draft-SameEvents draft new Status.proposed now
write_intents-SameEvents DecisionName.held draft id new now =
    draft-SameEvents draft new Status.held now
write_intents-SameEvents DecisionName.approved draft id new now =
    set_status-SameEvents id Status.escrowed
write_intents-SameEvents DecisionName.reverted draft id new now =
    set_status-SameEvents id Status.reverted
write_intents-SameEvents DecisionName.refused draft id new now = record {
  at_state = λ db. record { events = refl };
}

transaction-SameEvents :
    (m : Action Tables (Unit {0})) → Stays SameEvents m → Stays SameEvents (transaction m)
transaction-SameEvents m k = record { at_state = λ db. ended (m db) db (k.at_state db) }
  where
    ended :
        (c : Result (Unit {0}) × Tables) (db : Tables)
        → SameEvents db c.1
        → SameEvents db (commit_or_rollback c db).1
    ended (ok a, db') db h = h
    ended (err e, db') db h = record { events = refl }

pub writes-SameEvents :
    (d : Decision) (id : String) (o : Option String) (now : ℕ)
    → Stays SameEvents (writes d id o now)
writes-SameEvents d id o now = transaction-SameEvents _ (
    Stays-bind SameEvents-preorder (write_intents d.decision d.intent d.intent_id (id_text o) now) _
      (write_intents-SameEvents d.decision d.intent d.intent_id (id_text o) now)
      λ _. record {
        at_state = λ db. record { events = insert_decision-SameEvents (decision_row d id o) db };
      })
