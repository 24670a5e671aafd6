-- ===== src/Db/Queries.antt =====
-- lumo/db/repo.py: the queries, which only read the tables, and the tests and writes of its
-- UPDATE statements.
use lumo.Base.{
  ℕ, zero, suc, ℤ, pos, negsuc, length, [], ◌∷◌, ◌/◌, Bool, true, false, ◌&&◌, Option, none, some,
  List, map, String, ◌==◌, find, select, lookup, Action, Result, ok, err,
}
use lumo.Models.{Status, status_eq, PriorIntent}
use lumo.Db.Rows.{
  Supplier, Intent, ChainTx, Attestation, Tables, EventRow, AnchorPayout, DecisionRow,
}

-- `with self.conn:` commits, or rolls back if the block raises.
abbrev pub commit_or_rollback : {A : Type 0} → Result A × Tables → Tables → Result A × Tables
commit_or_rollback (ok a, db') db = (ok a, db')
commit_or_rollback (err e, db') db = (err e, db)

abbrev pub transaction : {A : Type 0} → Action Tables A → Action Tables A
transaction m db = commit_or_rollback (m db) db

abbrev pub supplier_by_name : String → Tables → Option Supplier
supplier_by_name name db = find (λ r. r.name == name) db.suppliers

abbrev pub supplier_by_id : String → Tables → Option Supplier
supplier_by_id id db = find (λ r. r.id == id) db.suppliers

abbrev pub supplier_addresses : Tables → List String
supplier_addresses db = map (λ r. r.address) db.suppliers

abbrev pub rule : String → Tables → Option String
rule key db = lookup key db.policy_rules

-- `date(…)` of a time in seconds
abbrev pub day : ℕ → ℕ
day t = t / 86400

abbrev pub prior : Intent → PriorIntent
prior r = record { amount = r.amount; status = r.status }

abbrev pub known_request_hashes : Tables → List String
known_request_hashes db = map (λ r. r.request_hash) db.intents

abbrev pub intent : String → Tables → Option Intent
intent id db = find (λ r. r.id == id) db.intents

abbrev pub is_proposed : Intent → Bool
is_proposed r = status_eq r.status Status.proposed

abbrev pub set_status : Status → Intent → Intent
set_status st r = record r { status = st }

abbrev pub is_unfunded : Intent → Bool
is_unfunded r =
    status_eq r.status Status.escrowed && elim r.chain_intent_id [ none ↦ true | some _ ↦ false ]

abbrev pub always : Intent → Bool
always r = true

abbrev pub chain_txs : String → Tables → List ChainTx
chain_txs id db = select (λ r. r.intent_id == id) db.chain_txs

abbrev pub attestations : String → Tables → List Attestation
attestations id db = select (λ r. r.intent_id == id) db.attestations

-- SQLite takes a negative LIMIT as none.
abbrev pub limited : {A : Type 0} → ℤ → List A → List A
limited (negsuc n) rs = rs
limited (pos zero) rs = []
limited (pos (suc n)) [] = []
limited (pos (suc n)) (r ∷ rs) = r ∷ limited (pos n) rs

abbrev pub onto : {A : Type 0} → List A → List A → List A
onto [] done = done
onto (r ∷ rs) done = onto rs (r ∷ done)

-- The last event comes first.
abbrev pub events : ℤ → Tables → List EventRow
events limit db = limited limit (onto db.events [])

-- Rows come in the order of `created_at`, which is that of the insertions while the clock does not
-- go back.
abbrev pub anchor_payouts : Tables → List AnchorPayout
anchor_payouts db = db.anchor_payouts

abbrev pub intent_count : Tables → ℕ
intent_count db = length db.intents

abbrev pub decision_rows : Tables → List DecisionRow
decision_rows db = db.decisions
