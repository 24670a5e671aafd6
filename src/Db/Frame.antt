-- ===== src/Db/Frame.antt =====
-- Every method of the repository but `record_decision` of a new intent and `release_escrow_claim`
-- lets the rows of `intents` only evolve.
use lumo.Base.{
  ℤ, modify, ◌==◌, ℕ, ◌≡◌, refl, Bool, true, false, Option, none, some, List, [], ◌∷◌, String,
  arith, Result, ok, err, bind_result,
}
use lumo.Base.Stays.{Stays, IsPreorder, Stays-bind}
use lumo.Models.{IntentDraft, Status, status_eq}
use lumo.Chain.{Kind}
use lumo.Monitor.{text, Value}
use lumo.Db.Rows.{
  DecisionName, DecisionRow, Tables, insert_chain_tx, insert_attestation, insert_anchor_payout,
  insert_decision,
}
use lumo.Db.Queries.{commit_or_rollback, set_status, always}
use lumo.Db.Repo.{
  Repo, emit, add_chain_tx, add_attestation, add_anchor_payout, set_chain_intent, mark_released,
  claim_escrow, update_intent,
}
use lumo.Db.Decide.{write_intents, decision_row, id_text, Decision, record_decision}
use lumo.Db.Decide.Stays.{record_decision-Stays}
use lumo.Db.Evolves.{Evolves, Evolves-refl, Evolves-trans, Evolves-update}

pub record RowsEvolve {E : Type 0} (s t : Repo E) : Type 0 where
  pub rows : Evolves s.db.intents t.db.intents

pub RowsEvolve-preorder : {E : Type 0} → IsPreorder (RowsEvolve {E = E})
RowsEvolve-preorder = record {
  start = λ s. record { rows = Evolves-refl s.db.intents };
  chain = λ s t u h k. record {
    rows = Evolves-trans s.db.intents t.db.intents u.db.intents h.rows k.rows;
  };
}

module _ {E : Type 0} where
  same_rows : (s t : Repo E) → t.db.intents ≡ s.db.intents → RowsEvolve s t
  same_rows s t e = record { rows = rw e (Evolves-refl s.db.intents) }

  pub intents-emit :
      (name : String) (payload : List (String × Value)) (s : Repo E)
      → (emit name payload s).1.db.intents ≡ s.db.intents
  unfolding emit
  intents-emit name payload s = ground arith

  intents-add_chain_tx :
      (id action : String) (h : Option String) (s : Repo E)
      → (add_chain_tx id action h s).1.db.intents ≡ s.db.intents
  unfolding add_chain_tx insert_chain_tx
  intents-add_chain_tx id action h s = ground arith

  intents-add_attestation :
      (id oracle : String) (k : Kind) (h : String) (s : Repo E)
      → (add_attestation id oracle k h s).1.db.intents ≡ s.db.intents
  unfolding add_attestation insert_attestation
  intents-add_attestation id oracle k h s = ground arith

  intents-add_anchor_payout :
      (id ref : String) (amount : ℤ) (address : String) (s : Repo E)
      → (add_anchor_payout id ref amount address s).1.db.intents ≡ s.db.intents
  unfolding add_anchor_payout insert_anchor_payout
  intents-add_anchor_payout id ref amount address s = ground arith

  pub emit-Stays :
      (name : String) (p : List (String × Value)) → Stays RowsEvolve (emit {E = E} name p)
  emit-Stays name p = record {
    at_state = λ s. same_rows s (emit name p s).1 (intents-emit name p s);
  }

  pub add_chain_tx-Stays :
      (id action : String) (h : Option String) → Stays RowsEvolve (add_chain_tx {E = E} id action h)
  add_chain_tx-Stays id action h = record {
    at_state = λ s. same_rows s (add_chain_tx id action h s).1 (intents-add_chain_tx id action h s);
  }

  pub add_attestation-Stays :
      (id oracle : String) (k : Kind) (h : String)
      → Stays RowsEvolve (add_attestation {E = E} id oracle k h)
  add_attestation-Stays id oracle k h = record {
    at_state = λ s.
        same_rows s (add_attestation id oracle k h s).1 (intents-add_attestation id oracle k h s);
  }

  pub add_anchor_payout-Stays :
      (id ref : String) (amount : ℤ) (address : String)
      → Stays RowsEvolve (add_anchor_payout {E = E} id ref amount address)
  add_anchor_payout-Stays id ref amount address = record {
    at_state = λ s.
        same_rows s (add_anchor_payout id ref amount address s).1
          (intents-add_anchor_payout id ref amount address s);
  }

  pub set_chain_intent-Stays :
      (id : String) (n : ℕ) → Stays RowsEvolve (set_chain_intent {E = E} id n)
  unfolding set_chain_intent
  set_chain_intent-Stays id n = record {
    at_state = λ s. record { rows = Evolves-update _ _ (λ r h. (refl, refl, λ p. p)) s.db.intents };
  }

  pub claim_escrow-Stays : (id : String) → Stays RowsEvolve (claim_escrow {E = E} id)
  unfolding claim_escrow
  claim_escrow-Stays id = record {
    at_state =
        λ s. record { rows = Evolves-update _ _ (λ r h. (refl, refl, λ p. cc)) s.db.intents };
  }

  -- a write of a status other than proposed
  status-Stays :
      (id : String) (st : Status)
      → status_eq st Status.proposed ≡ false
      → (s : Repo E) → RowsEvolve s (update_intent id always (set_status st) s)
  status-Stays id st h s = record {
    rows = Evolves-update _ _ (λ r e. (refl, refl, λ p. ground arith)) s.db.intents;
  }

  pub mark_released-Stays : (id : String) → Stays RowsEvolve (mark_released {E = E} id)
  unfolding mark_released
  mark_released-Stays id =
      Stays-bind RowsEvolve-preorder (modify (update_intent id always (set_status Status.released)))
        _ (record { at_state = λ s. status-Stays id Status.released refl s })
        (λ _. emit-Stays "intent.released" (("intent_id", text (some id)) ∷ []))

intents-insert_decision :
    (r : DecisionRow) (db : Tables) → (insert_decision r db).1.intents ≡ db.intents
unfolding insert_decision
intents-insert_decision r db = ground arith

-- Decisions on an intent that exists.
abbrev pub is_follow_up : DecisionName → Bool
is_follow_up DecisionName.proposed = false
is_follow_up DecisionName.held = false
is_follow_up _ = true

write_intents-Evolves :
    (name : DecisionName) (draft : Option IntentDraft) (id : Option String) (new : String) (now : ℕ)
    → is_follow_up name ≡ true
    → (db : Tables) → Evolves db.intents (write_intents name draft id new now db).1.intents
write_intents-Evolves DecisionName.proposed draft id new now h db = cc
write_intents-Evolves DecisionName.held draft id new now h db = cc
write_intents-Evolves DecisionName.refused draft id new now h db = Evolves-refl db.intents
write_intents-Evolves DecisionName.approved draft none new now h db = Evolves-refl db.intents
write_intents-Evolves DecisionName.approved draft (some id) new now h db =
    Evolves-update (λ r. r.id == id) (set_status Status.escrowed) (λ r e. (refl, refl, λ p. cc))
      db.intents
write_intents-Evolves DecisionName.reverted draft none new now h db = Evolves-refl db.intents
write_intents-Evolves DecisionName.reverted draft (some id) new now h db =
    Evolves-update (λ r. r.id == id) (set_status Status.reverted) (λ r e. (refl, refl, λ p. cc))
      db.intents

rollback-Evolves :
    {A : Type 0} (r : Result A × Tables) (db : Tables)
    → Evolves db.intents r.1.intents
    → Evolves db.intents (commit_or_rollback r db).1.intents
rollback-Evolves (ok a, db') db h = h
rollback-Evolves (err e, db') db h = Evolves-refl db.intents

then_insert-Evolves :
    (r : Result (Unit {0}) × Tables) (row : DecisionRow) (db : Tables)
    → Evolves db.intents r.1.intents
    → Evolves db.intents
        (commit_or_rollback (bind_result r.0 r.1 (λ _. insert_decision row)) db).1.intents
then_insert-Evolves (ok a, db') row db h =
    rollback-Evolves (insert_decision row db') db (rw intents-insert_decision h)
then_insert-Evolves (err e, db') row db h = Evolves-refl db.intents

pub follow_up-Stays :
    {E : Type 0} (d : Decision)
    → is_follow_up d.decision ≡ true
    → Stays RowsEvolve (record_decision {E = E} d)
follow_up-Stays d h =
    record_decision-Stays RowsEvolve-preorder (λ s. record { rows = Evolves-refl s.db.intents }) d
      (λ id o now. record {
        at_state = λ s. record {
          rows =
              then_insert-Evolves
                (write_intents d.decision d.intent d.intent_id (id_text o) now s.db)
                (decision_row d id o) s.db
                (write_intents-Evolves d.decision d.intent d.intent_id (id_text o) now h s.db);
        };
      })
      emit-Stays
