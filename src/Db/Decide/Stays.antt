-- ===== src/Db/Decide/Stays.antt =====
-- What `record_decision` keeps, from what its steps keep: a new id, the transaction, the event.
use lumo.Base.{
  ℕ, ◌+◌, Option, List, String, Action, ok, value_error, raise_if, gets, ◌>>◌, Bool-cases, inl, inr,
}
use lumo.Base.Stays.{Stays, IsPreorder, Stays-result, Stays-bind, Stays-raise_if}
use lumo.Monitor.{Value}
use lumo.Db.Rows.{Tables, insert_decision}
use lumo.Db.Queries.{transaction}
use lumo.Db.Repo.{Repo, new_id, on_db, emit}
use lumo.Db.Decide.{
  Decision, record_decision, write_intents, decision_row, decision_payload, event_name,
  intent_id_of, id_text, is_malformed, makes_intent,
}

-- The transaction of `record_decision`.
abbrev pub writes : Decision → String → Option String → ℕ → Action Tables (Unit {0})
writes d decision_id intent_id now = transaction (
    write_intents d.decision d.intent d.intent_id (id_text intent_id) now
    >> insert_decision (decision_row d decision_id intent_id))

module _ {E : Type 0} {R : Repo E → Repo E → Type 0} (pre : IsPreorder R)
    (mint : (s : Repo E) → R s (record s { minted = s.minted + 1 })) where
  intent_id_of-Stays : (d : Decision) → Stays R (intent_id_of {E = E} d)
  intent_id_of-Stays d = record { at_state = λ s. by_case s }
    where
      by_case : (s : Repo E) → R s (intent_id_of d s).1
      by_case s = elim (Bool-cases (makes_intent d.decision)) [
        | inl new ↦ rw new (mint s)
        | inr old ↦ rw old (pre.start s)
      ]

  pub record_decision-Stays :
      (d : Decision)
      → ((id : String) (o : Option String) (now : ℕ) → Stays R (on_db {E = E} (writes d id o now)))
      → ((name : String) (p : List (String × Value)) → Stays R (emit {E = E} name p))
      → Stays R (record_decision {E = E} d)
  unfolding record_decision
  record_decision-Stays d write notice =
      Stays-bind pre (raise_if (is_malformed d.decision d.intent d.intent_id) value_error) _
        (Stays-raise_if pre (is_malformed d.decision d.intent d.intent_id) value_error)
        λ _.
          Stays-bind pre new_id _ (record { at_state = mint })
            λ decision_id. Stays-bind pre (intent_id_of d) _ (intent_id_of-Stays d) λ intent_id.
              Stays-bind pre (gets (λ (s : Repo E). s.now)) _ (Stays-result pre (λ s. ok s.now))
                λ now.
                  Stays-bind pre (on_db (writes d decision_id intent_id now)) _
                    (write decision_id intent_id now)
                    λ _.
                      Stays-bind pre
                        (emit (event_name d.decision) (decision_payload d decision_id intent_id)) _
                        (notice (event_name d.decision) (decision_payload d decision_id intent_id))
                        λ _.
                          Stays-result pre
                            (λ s. ok (record { decision_id = decision_id; intent_id = intent_id }))
