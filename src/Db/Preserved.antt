-- ===== src/Db/Preserved.antt =====
-- `record_decision` keeps a property of `intents` if the single writes do.
use lumo.Base.{
  ℕ, ◌≡◌, refl, subst, sym, Bool, false, ◌||◌, Option, none, some, List, [], ◌∷◌, ◌++◌, String,
  ◌==◌, any, update, Action, Result, ok, err, other, Bool-cases, inl, inr, arith,
}
use lumo.Base.Stays.{Stays, IsPreorder, Stays-result, Stays-bind}
use lumo.Models.{status_eq, Status, IntentDraft}
use lumo.Db.Rows.{Intent, DecisionName, DecisionRow, Tables, insert_intent, insert_decision}
use lumo.Db.Queries.{transaction, commit_or_rollback, set_status}
use lumo.Db.Repo.{Repo}
use lumo.Db.Decide.{
  Decision, record_decision, write_intents, draft_intent, set_intent_status, new_intent,
  decision_row, id_text,
}
use lumo.Db.Decide.Stays.{record_decision-Stays}
use lumo.Db.Evolves.{Evolves, Evolves-update}
use lumo.Db.Frame.{RowsEvolve, intents-emit}

abbrev pub taken : Intent → Intent → Bool
taken r q = q.id == r.id || q.request_hash == r.request_hash

-- A property of `intents` is kept by a step from one state of the tables to another.
abbrev pub KeepsRows : (List Intent → Type 0) → Tables → Tables → Type 0
KeepsRows P db db' = P db.intents → P db'.intents

abbrev pub Preserves : {E : Type 0} → (List Intent → Type 0) → Repo E → Repo E → Type 0
Preserves P s t = P s.db.intents → P t.db.intents

pub Preserves-preorder : {E : Type 0} (P : List Intent → Type 0) → IsPreorder (Preserves {E = E} P)
Preserves-preorder P = record { start = λ s u. u; chain = λ a b c f g u. g (f u) }

-- A property of `intents` that a new row with keys of its own keeps, and every change that makes
-- no row proposed.
module _ (P : List Intent → Type 0)
    (grow : (r : Intent) (rs : List Intent) → any (taken r) rs ≡ false → P rs → P (rs ++ r ∷ []))
    (turn : (rs rs' : List Intent) → Evolves rs rs' → P rs → P rs') where
  tables : IsPreorder (KeepsRows P)
  tables = record { start = λ db u. u; chain = λ a b c f g u. g (f u) }

  insert_intent-Stays : (r : Intent) → Stays (KeepsRows P) (insert_intent r)
  unfolding insert_intent
  insert_intent-Stays r = record { at_state = λ db. by_case db }
    where
      by_case : (db : Tables) → (KeepsRows P) db (insert_intent r db).1
      by_case db u = elim (Bool-cases (any (taken r) db.intents)) [
        | inl old ↦ rw old u
        | inr new ↦ elim (Bool-cases (any (λ q. q.id == r.supplier_id) db.suppliers)) [
          | inl known ↦ rw (new, known) (grow r db.intents new u)
          | inr unknown ↦ rw (new, unknown) u
        ]
      ]

  intents-insert_decision :
      (r : DecisionRow) (db : Tables) → (insert_decision r db).1.intents ≡ db.intents
  unfolding insert_decision
  intents-insert_decision r db = ground arith

  insert_decision-Stays : (r : DecisionRow) → Stays (KeepsRows P) (insert_decision r)
  insert_decision-Stays r = record {
    at_state = λ db u. subst P (sym (intents-insert_decision r db)) u;
  }

  set_status-Stays :
      (o : Option String) (st : Status)
      → status_eq st Status.proposed ≡ false
      → Stays (KeepsRows P) (set_intent_status o st)
  set_status-Stays none st h = record { at_state = λ db u. u }
  set_status-Stays (some id) st h = record {
    at_state = λ db u.
        turn db.intents (update (λ r. r.id == id) (set_status st) db.intents)
          (Evolves-update (λ r. r.id == id) (set_status st) (λ r hit. (refl, refl, λ p. cc))
            db.intents)
          u;
  }

  draft-Stays :
      (o : Option IntentDraft) (id : String) (st : Status) (now : ℕ)
      → Stays (KeepsRows P) (draft_intent o id st now)
  draft-Stays none id st now = Stays-result tables (λ db. err other)
  draft-Stays (some draft) id st now = insert_intent-Stays (new_intent id st draft now)

  write_intents-Stays :
      (d : DecisionName) (draft : Option IntentDraft) (id : Option String) (new : String) (now : ℕ)
      → Stays (KeepsRows P) (write_intents d draft id new now)
  write_intents-Stays DecisionName.proposed draft id new now =
      draft-Stays draft new Status.proposed now
  write_intents-Stays DecisionName.held draft id new now = draft-Stays draft new Status.held now
  write_intents-Stays DecisionName.approved draft id new now =
      set_status-Stays id Status.escrowed refl
  write_intents-Stays DecisionName.reverted draft id new now =
      set_status-Stays id Status.reverted refl
  write_intents-Stays DecisionName.refused draft id new now = record { at_state = λ db u. u }

  transaction-Stays :
      (m : Action Tables (Unit {0})) → Stays (KeepsRows P) m → Stays (KeepsRows P) (transaction m)
  transaction-Stays m k = record { at_state = λ db. ended (m db) db (k.at_state db) }
    where
      ended :
          (c : Result (Unit {0}) × Tables) (db : Tables)
          → (KeepsRows P) db c.1
          → (KeepsRows P) db (commit_or_rollback c db).1
      ended (ok a, db') db h = h
      ended (err e, db') db h = λ u. u

  pub RowsEvolve-Preserves :
      {E A : Type 0} (m : Action (Repo E) A) → Stays RowsEvolve m → Stays (Preserves P) m
  RowsEvolve-Preserves m k = record {
    at_state = λ s u. turn s.db.intents (m s).1.db.intents (k.at_state s).rows u;
  }

  module _ {E : Type 0} where
    repos : IsPreorder (Preserves {E = E} P)
    repos = Preserves-preorder P

    pub record_decision-Preserves : (d : Decision) → Stays (Preserves P) (record_decision {E = E} d)
    record_decision-Preserves d =
        record_decision-Stays repos (λ s u. u) d
          (λ id o now. record {
            at_state = λ s.
                ((transaction-Stays _ (
                    Stays-bind tables
                      (write_intents d.decision d.intent d.intent_id (id_text o) now) _
                      (write_intents-Stays d.decision d.intent d.intent_id (id_text o) now)
                      λ _. insert_decision-Stays (decision_row d id o))).at_state
                  s.db);
          })
          (λ name p. record { at_state = λ s u. rw (intents-emit name p s) u })
