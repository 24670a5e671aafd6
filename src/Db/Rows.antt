-- ===== src/Db/Rows.antt =====
-- lumo/db/migrations: the tables after all migrations, and the constraints that an INSERT meets.
-- A TEXT column that holds a number holds its decimal form: every writer applies `str` and every
-- reader `int`, so the column is that number. `created_at` counts seconds.
use lumo.Base.{
  ℕ, ℤ, Bool, true, ◌||◌, not, Option, none, some, List, [], ◌∷◌, ◌++◌, String, ◌==◌, any, Action,
  integrity_error, ◌>>=◌, ◌>>◌, raise_if, modify, gets,
}
use lumo.Models.{Status}
use lumo.Chain.{Kind}
use lumo.Monitor.{Value}

pub record Supplier : Type 0 where
  pub id : String
  pub name : String
  pub address : String

pub record Intent : Type 0 where
  pub id : String
  pub request_hash : String
  pub supplier_id : String
  pub amount : ℤ
  pub token : String
  pub deadline : ℤ
  pub status : Status
  pub chain_intent_id : Option ℕ
  pub invoice_ref : Option String
  pub created_at : ℕ

-- DECISIONS of lumo/db/repo.py, which is also the CHECK constraint of the column.
pub data DecisionName : Type 0 where
  proposed held approved refused reverted : DecisionName

pub record DecisionRow : Type 0 where
  pub id : String
  pub decision : DecisionName
  pub codes : List String
  pub request_hash : String
  pub intent_id : Option String
  pub detail : Option String

pub record ChainTx : Type 0 where
  pub id : String
  pub intent_id : String
  pub action : String
  pub tx_hash : Option String

pub record AnchorPayout : Type 0 where
  pub id : String
  pub intent_id : String
  pub ref : String
  pub amount : ℤ
  pub address : String

pub record Attestation : Type 0 where
  pub id : String
  pub intent_id : String
  pub oracle_address : String
  pub kind : Kind
  pub request_hash : String

pub record EventRow : Type 0 where
  pub id : String
  pub name : String
  pub payload : List (String × Value)

pub record Tables : Type 0 where
  pub suppliers : List Supplier
  pub policy_rules : List (String × String)
  pub intents : List Intent
  pub decisions : List DecisionRow
  pub chain_txs : List ChainTx
  pub anchor_payouts : List AnchorPayout
  pub attestations : List Attestation
  pub events : List EventRow

abbrev pub has_intent : String → Tables → Bool
has_intent id db = any (λ r. r.id == id) db.intents

-- A NULL reference is never checked.
abbrev pub refers : Option String → Tables → Bool
refers none db = true
refers (some id) db = has_intent id db

-- Each INSERT raises `sqlite3.IntegrityError` if a key is taken or a reference dangles.
unfoldable pub insert_supplier : Supplier → Action Tables (Unit {0})
insert_supplier r = do
  taken ← gets (λ db. any (λ q. q.id == r.id || q.name == r.name) db.suppliers)
  raise_if taken integrity_error
  modify (λ db. record db { suppliers = db.suppliers ++ r ∷ [] })

unfoldable pub insert_intent : Intent → Action Tables (Unit {0})
insert_intent r = do
  taken ← gets (λ db. any (λ q. q.id == r.id || q.request_hash == r.request_hash) db.intents)
  raise_if taken integrity_error
  known ← gets (λ db. any (λ q. q.id == r.supplier_id) db.suppliers)
  raise_if (not known) integrity_error
  modify (λ db. record db { intents = db.intents ++ r ∷ [] })

unfoldable pub insert_decision : DecisionRow → Action Tables (Unit {0})
insert_decision r = do
  taken ← gets (λ db. any (λ q. q.id == r.id) db.decisions)
  raise_if taken integrity_error
  known ← gets (refers r.intent_id)
  raise_if (not known) integrity_error
  modify (λ db. record db { decisions = db.decisions ++ r ∷ [] })

unfoldable pub insert_chain_tx : ChainTx → Action Tables (Unit {0})
insert_chain_tx r = do
  taken ← gets (λ db. any (λ q. q.id == r.id) db.chain_txs)
  raise_if taken integrity_error
  known ← gets (has_intent r.intent_id)
  raise_if (not known) integrity_error
  modify (λ db. record db { chain_txs = db.chain_txs ++ r ∷ [] })

unfoldable pub insert_anchor_payout : AnchorPayout → Action Tables (Unit {0})
insert_anchor_payout r = do
  taken ← gets (λ db. any (λ q. q.id == r.id || q.ref == r.ref) db.anchor_payouts)
  raise_if taken integrity_error
  known ← gets (has_intent r.intent_id)
  raise_if (not known) integrity_error
  modify (λ db. record db { anchor_payouts = db.anchor_payouts ++ r ∷ [] })

unfoldable pub insert_attestation : Attestation → Action Tables (Unit {0})
insert_attestation r = do
  taken ← gets (λ db. any (λ q. q.id == r.id) db.attestations)
  raise_if taken integrity_error
  known ← gets (has_intent r.intent_id)
  raise_if (not known) integrity_error
  modify (λ db. record db { attestations = db.attestations ++ r ∷ [] })

unfoldable pub insert_event : EventRow → Action Tables (Unit {0})
insert_event r = do
  taken ← gets (λ db. any (λ q. q.id == r.id) db.events)
  raise_if taken integrity_error
  modify (λ db. record db { events = db.events ++ r ∷ [] })
