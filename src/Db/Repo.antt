-- ===== src/Db/Repo.antt =====
-- lumo/db/repo.py: the repository. Its state is the database, the event bus, the clock, and what
-- the calls of `ulid.new` return one after another.
use lumo.Base.{
  ℕ, ℤ, ◌+◌, Bool, ◌&&◌, Option, some, List, [], ◌∷◌, map, String, ◌==◌, nat_eq, if◌then◌else◌,
  select, update, row_count, insert, Action, ok, pure, ◌>>=◌, ◌>>◌, modify,
}
use lumo.Models.{Status, PriorIntent}
use lumo.Chain.{Kind}
use lumo.Monitor.{Event, EventBus, Value, text, publish}
use lumo.Db.Rows.{
  Intent, Tables, insert_supplier, insert_chain_tx, insert_anchor_payout, insert_attestation,
  insert_event,
}
use lumo.Db.Queries.{day, prior, is_proposed, set_status, is_unfunded, always}

pub record Repo (E : Type 0) : Type 0 where
  pub db : Tables
  pub bus : EventBus E
  pub now : ℕ
  pub ids : ℕ → String
  pub minted : ℕ

module _ {E : Type 0} where
  abbrev pub on_db : {A : Type 0} → Action Tables A → Action (Repo E) A
  on_db m s = let (r, db) = m s.db in (r, record s { db = db })

  abbrev pub new_id : Action (Repo E) String
  new_id s = (ok (s.ids s.minted), record s { minted = s.minted + 1 })

  abbrev pub publish_event : Event → Action (Repo E) (Unit {0})
  publish_event e s = let (r, bus) = publish e s.bus in (r, record s { bus = bus })

  unfoldable pub emit : String → List (String × Value) → Action (Repo E) (Unit {0})
  unfolding insert_event
  emit name payload s =
      if s.bus.enabled
      then (do
        id ← new_id
        on_db (insert_event (record { id = id; name = name; payload = payload }))
        publish_event (record { name = name; payload = payload }))
          s
      else (ok tt, s)

  unfoldable pub add_supplier : String → String → Action (Repo E) String
  unfolding insert_supplier
  add_supplier name address = do
    id ← new_id
    on_db (insert_supplier (record { id = id; name = name; address = address }))
    pure id

  unfoldable pub set_rule : String → String → Action (Repo E) (Unit {0})
  set_rule key value =
      modify
        λ s. record s { db = record s.db { policy_rules = insert key value s.db.policy_rules } }

  unfoldable pub intents_today : Repo E → List PriorIntent
  intents_today s = map prior (select (λ r. nat_eq (day r.created_at) (day s.now)) s.db.intents)

  -- `UPDATE intents SET … WHERE id = …` and a further condition
  abbrev pub update_intent : String → (Intent → Bool) → (Intent → Intent) → Repo E → Repo E
  update_intent id also f s = record s {
    db = record s.db { intents = update (λ r. r.id == id && also r) f s.db.intents };
  }

  -- True if exactly one row changed.
  unfoldable pub claim_escrow : String → Action (Repo E) Bool
  claim_escrow id s = (
    ok (nat_eq (row_count (λ r. r.id == id && is_proposed r) s.db.intents) 1),
    update_intent id is_proposed (set_status Status.escrowed) s,
  )

  unfoldable pub release_escrow_claim : String → Action (Repo E) (Unit {0})
  release_escrow_claim id = modify (update_intent id is_unfunded (set_status Status.proposed))

  unfoldable pub set_chain_intent : String → ℕ → Action (Repo E) (Unit {0})
  set_chain_intent id chain_id =
      modify (update_intent id always (λ r. record r { chain_intent_id = some chain_id }))

  unfoldable pub mark_released : String → Action (Repo E) (Unit {0})
  mark_released id = do
    modify (update_intent id always (set_status Status.released))
    emit "intent.released" (("intent_id", text (some id)) ∷ [])

  unfoldable pub add_chain_tx : String → String → Option String → Action (Repo E) (Unit {0})
  add_chain_tx id action tx_hash = do
    row_id ← new_id
    on_db (
        insert_chain_tx
          (record { id = row_id; intent_id = id; action = action; tx_hash = tx_hash }))

  unfoldable pub add_anchor_payout : String → String → ℤ → String → Action (Repo E) (Unit {0})
  add_anchor_payout id ref amount address = do
    row_id ← new_id
    on_db (
        insert_anchor_payout
          (record { id = row_id; intent_id = id; ref = ref; amount = amount; address = address }))

  unfoldable pub add_attestation : String → String → Kind → String → Action (Repo E) (Unit {0})
  add_attestation id oracle kind request_hash = do
    row_id ← new_id
    on_db (
        insert_attestation (record {
          id = row_id;
          intent_id = id;
          oracle_address = oracle;
          kind = kind;
          request_hash = request_hash;
        }))
