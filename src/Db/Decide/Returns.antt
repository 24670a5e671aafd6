-- ===== src/Db/Decide/Returns.antt =====
-- `record_decision` returns if the ids to come are not used yet and the row of a new intent meets
-- the constraints of the table.
use lumo.Base.{
  Bool-cases, inl, inr, eq_iff, ◌>>◌, ◌||◌, ℕ, ◌+◌, ◌≡◌, refl, ap, sym, ◌∙◌, subst, Bool, true,
  false, Option, none, some, List, [], ◌∷◌, ◌++◌, String, ◌==◌, any, Action, ok, pure, ◌>>=◌, arith,
  eq_refl,
}
use lumo.Models.{IntentDraft, Status}
use lumo.Db.Rows.{Tables, DecisionName, insert_intent, insert_decision}
use lumo.Db.Repo.{Repo, emit}
use lumo.Db.Queries.{transaction}
use lumo.Db.Fresh.{
  Fresh, Frame, Lives, Lives-bind, Lives-result, emit-Lives, any-append, next_differs,
}
use lumo.Db.Decide.{
  Decision, DecisionOutcome, record_decision, decision_row, decision_payload, event_name,
  new_intent,
}

abbrev refusal : List String → String → Option String → Decision
refusal codes request_hash detail = record {
  decision = DecisionName.refused;
  codes = codes;
  request_hash = request_hash;
  intent = none;
  intent_id = none;
  detail = detail;
}

abbrev pub proposal : DecisionName → List String → String → IntentDraft → Decision
proposal name codes request_hash draft = record {
  decision = name;
  codes = codes;
  request_hash = request_hash;
  intent = some draft;
  intent_id = none;
  detail = none;
}

module _ {E : Type 0} where
  -- the repository when a refusal is written
  abbrev refused_in : Decision → Repo E → Repo E
  refused_in d s = record s {
    minted = s.minted + 1;
    db = record s.db { decisions = s.db.decisions ++ decision_row d (s.ids s.minted) none ∷ [] };
  }

  refused_in-Fresh : (d : Decision) (s : Repo E) → Fresh s → Fresh (refused_in d s)
  refused_in-Fresh d s f = record {
    distinct = f.distinct;
    decisions = λ k h.
        any-append (λ q. q.id == s.ids k) s.db.decisions (decision_row d (s.ids s.minted) none)
          (f.decisions k (omega arith)) (next_differs s k f h);
    intents = λ k h. f.intents k (omega arith);
    events = λ k h. f.events k (omega arith);
    quiet = f.quiet;
  }

  abbrev pub announce : Decision → String → Option String → Action (Repo E) DecisionOutcome
  announce d id intent_id = emit (event_name d.decision) (decision_payload d id intent_id) >>= λ _.
      pure (record { decision_id = id; intent_id = intent_id })

  pub announce-Lives :
      (d : Decision) (id : String) (o : Option String) (s : Repo E)
      → Fresh s
      → Lives (announce d id o) s (record { decision_id = id; intent_id = o })
  announce-Lives d id o s f =
      let told = emit-Lives (event_name d.decision) (decision_payload d id o) s f in
      Lives-bind (emit (event_name d.decision) (decision_payload d id o)) _ s tt _ told
        (Lives-result _ (record { decision_id = id; intent_id = o }) told.frame.fresh)

  -- A refusal is recorded: the call returns, and leaves the intents as they are.
  pub record_refusal :
      (codes : List String) (request_hash : String) (detail : Option String) (s : Repo E)
      → Fresh s
      → (o : DecisionOutcome) × ((record_decision (refusal codes request_hash detail) s).0 ≡ ok o)
        × ((record_decision (refusal codes request_hash detail) s).1.db.intents ≡ s.db.intents)
  unfolding record_decision insert_decision
  record_refusal codes request_hash detail s f =
      let d = refusal codes request_hash detail in
      let l = announce-Lives d (s.ids s.minted) none (refused_in d s) (refused_in-Fresh d s f) in
      let e : record_decision d s ≡ announce d (s.ids s.minted) none (refused_in d s) =
        rw (f.decisions s.minted (omega arith)) refl in
      (_, ap (λ c. c.0) e ∙ l.returns, ap (λ c. c.1.db.intents) e ∙ l.frame.intents)

pub any-or :
    {A : Type 0} (p q : A → Bool) (rs : List A)
    → any p rs ≡ false
    → any q rs ≡ false
    → any (λ r. p r || q r) rs ≡ false
any-or p q [] h k = refl
any-or p q (r ∷ rs) h k = ground (arith, any-or p q rs)

pub any-last :
    {A : Type 0} (p : A → Bool) (rs : List A) (r : A) → p r ≡ true → any p (rs ++ r ∷ []) ≡ true
any-last p [] r h = ground arith
any-last p (x ∷ rs) r h = ground (arith, any-last p rs r)

-- The row of a new intent meets the constraints but for its id.
pub record Insertable (draft : IntentDraft) (db : Tables) : Type 0 where
  pub known : any (λ q. q.id == draft.supplier_id) db.suppliers ≡ true
  pub unseen : any (λ q. q.request_hash == draft.request_hash) db.intents ≡ false

module _ {E : Type 0} where
  -- the repository when a proposal is written
  abbrev pub drafted_in : Decision → Status → IntentDraft → Repo E → Repo E
  drafted_in d st draft s = record s {
    minted = s.minted + 1 + 1;
    db = record s.db {
      intents = s.db.intents ++ new_intent (s.ids (s.minted + 1)) st draft s.now ∷ [];
      decisions =
          s.db.decisions ++ decision_row d (s.ids s.minted) (some (s.ids (s.minted + 1))) ∷ [];
    };
  }

  skipped : (s : Repo E) (i k : ℕ) → Fresh s → ¬ (i ≡ k) → (s.ids i == s.ids k) ≡ false
  skipped s i k f h = elim (Bool-cases (s.ids i == s.ids k)) [
    | inl hit ↦ absurd (h (f.distinct i k ((eq_iff (s.ids i) (s.ids k)).0 hit)))
    | inr miss ↦ miss
  ]

  pub drafted_in-Fresh :
      (d : Decision) (st : Status) (draft : IntentDraft) (s : Repo E)
      → Fresh s
      → Fresh (drafted_in d st draft s)
  drafted_in-Fresh d st draft s f = record {
    distinct = f.distinct;
    decisions = λ k h.
        any-append (λ q. q.id == s.ids k) s.db.decisions
          (decision_row d (s.ids s.minted) (some (s.ids (s.minted + 1))))
          (f.decisions k (omega arith)) (skipped s s.minted k f (λ e. omega arith));
    intents = λ k h.
        any-append (λ q. q.id == s.ids k) s.db.intents
          (new_intent (s.ids (s.minted + 1)) st draft s.now) (f.intents k (omega arith))
          (skipped s (s.minted + 1) k f (λ e. omega arith));
    events = λ k h. f.events k (omega arith);
    quiet = f.quiet;
  }

  written :
      (d : Decision) (st : Status) (draft : IntentDraft) (s : Repo E)
      → Fresh s
      → Insertable draft s.db
      → transaction
          (insert_intent (new_intent (s.ids (s.minted + 1)) st draft s.now)
            >> insert_decision (decision_row d (s.ids s.minted) (some (s.ids (s.minted + 1)))))
          s.db
        ≡ (ok tt, (drafted_in d st draft s).db)
  unfolding insert_intent insert_decision
  written d st draft s f i =
      let new = new_intent (s.ids (s.minted + 1)) st draft s.now in
      rw
        (
          any-or (λ q. q.id == new.id) (λ q. q.request_hash == new.request_hash) s.db.intents
              (f.intents (s.minted + 1) (omega arith)) i.unseen,
          i.known,
          f.decisions s.minted (omega arith),
          any-last (λ q. q.id == new.id) s.db.intents new (eq_refl new.id),
        )
        refl

  -- What the call returns, and that it has written the row.
  pub record Announced (d : Decision) (st : Status) (draft : IntentDraft) (s : Repo E)
      : Type 0 where
    pub outcome : DecisionOutcome
    pub returns : (record_decision d s).0 ≡ ok outcome
    pub id_is : outcome.intent_id ≡ some (s.ids (s.minted + 1))
    pub frame : Frame (drafted_in d st draft s) (record_decision d s).1

  announced :
      (d : Decision) (st : Status) (draft : IntentDraft) (s : Repo E)
      → Fresh s
      → record_decision d s
        ≡ announce d (s.ids s.minted) (some (s.ids (s.minted + 1))) (drafted_in d st draft s)
      → Announced d st draft s
  announced d st draft s f e =
      let l =
        announce-Lives d (s.ids s.minted) (some (s.ids (s.minted + 1))) (drafted_in d st draft s)
          (drafted_in-Fresh d st draft s f) in
      record {
        outcome = record { decision_id = s.ids s.minted; intent_id = some (s.ids (s.minted + 1)) };
        returns = ap (λ c. c.0) e ∙ l.returns;
        id_is = refl;
        frame = subst (λ c. Frame (drafted_in d st draft s) c.1) (sym e) l.frame;
      }

  -- A proposed intent is recorded: the call returns.
  pub record_proposed :
      (codes : List String) (request_hash : String) (draft : IntentDraft) (s : Repo E)
      → Fresh s
      → Insertable draft s.db
      → Announced (proposal DecisionName.proposed codes request_hash draft) Status.proposed draft s
  unfolding record_decision
  record_proposed codes request_hash draft s f i =
      let d = proposal DecisionName.proposed codes request_hash draft in
      announced d Status.proposed draft s f (rw (written d Status.proposed draft s f i) refl)

  -- So is a held one.
  pub record_held :
      (codes : List String) (request_hash : String) (draft : IntentDraft) (s : Repo E)
      → Fresh s
      → Insertable draft s.db
      → Announced (proposal DecisionName.held codes request_hash draft) Status.held draft s
  unfolding record_decision
  record_held codes request_hash draft s f i =
      let d = proposal DecisionName.held codes request_hash draft in
      announced d Status.held draft s f (rw (written d Status.held draft s f i) refl)
