-- ===== src/Ui/Read.antt =====
-- lumo/ui/server.py: what the user interface reads, and its GET requests. A dictionary made of a
-- row is the row. Listings come in the order of the insertions, which is that of `created_at` while
-- the clock does not go back; that column is left out but for the intents. The database is the
-- tables that `connect_ro` opens, or the exception that it or a query raises; the bytes of the
-- pages stand for themselves.
use Prim.Native.Nat.{Ordering}
use Prim.Native.String.{compare}
use lumo.Base.{
  pos, ℕ, ℤ, Bool, true, false, ◌||◌, Option, none, some, List, [], ◌∷◌, map, String, ◌==◌,
  if◌then◌else◌, leb, or_default, lookup, Error, Result, ok, err, integrity_error,
}
use lumo.Db.Queries.{events as event_rows}
use lumo.Config.{Config, Trust, strict, balanced, fast}
use lumo.Monitor.{Value}
use lumo.Monitor.Metrics.{Snapshot, snapshot, render_prometheus}
use lumo.Db.Rows.{Supplier, Intent, DecisionRow, ChainTx, AnchorPayout, Tables}
use lumo.Db.Queries.{supplier_by_id}
use lumo.Ui.{trust_of, trust_profile}

pub record TrustState : Type 0 where
  pub flags : Trust
  pub profile : String
  pub profiles : List (String × Trust)

abbrev pub profiles : List (String × Trust)
profiles = ("strict", strict) ∷ ("balanced", balanced) ∷ ("fast", fast) ∷ []

abbrev pub trust_state : Config → TrustState
trust_state c = record { flags = trust_of c; profile = trust_profile c; profiles = profiles }

pub record State : Type 0 where
  pub suppliers : List Supplier
  pub rules : List (String × String)
  pub intents : List (Intent × String)
  pub decisions : List DecisionRow
  pub chain_txs : List ChainTx
  pub anchor_payouts : List AnchorPayout
  pub trust : TrustState

-- `ORDER BY`: rows that compare equal keep their order
abbrev pub insert_by : {A : Type 0} → (A → A → Bool) → A → List A → List A
insert_by before x [] = x ∷ []
insert_by before x (y ∷ ys) = if before x y then x ∷ y ∷ ys else y ∷ insert_by before x ys

abbrev pub sort_by : {A : Type 0} → (A → A → Bool) → List A → List A
sort_by before [] = []
sort_by before (x ∷ xs) = insert_by before x (sort_by before xs)

-- the intents with the names of their suppliers; the JOIN drops those without one
abbrev with_supplier : Intent → Option Supplier → List (Intent × String) → List (Intent × String)
with_supplier r none rest = rest
with_supplier r (some s) rest = (r, s.name) ∷ rest

abbrev pub join_suppliers : Tables → List Intent → List (Intent × String)
join_suppliers db [] = []
join_suppliers db (r ∷ rs) =
    with_supplier r (supplier_by_id r.supplier_id db) (join_suppliers db rs)

abbrev created_before : Intent → Intent → Bool
created_before r q = leb r.created_at q.created_at

unfoldable pub read_state : Tables → Config → State
read_state db config = record {
  suppliers = db.suppliers;
  rules = db.policy_rules;
  intents = join_suppliers db (sort_by created_before db.intents);
  decisions = db.decisions;
  chain_txs = db.chain_txs;
  anchor_payouts = db.anchor_payouts;
  trust = trust_state config;
}

-- `ORDER BY rowid DESC LIMIT ?`
unfoldable pub read_events : ℕ → Tables → List (String × List (String × Value))
read_events limit db = map (λ r. (r.name, r.payload)) (event_rows (pos limit) db)

pub record TestnetInfo : Type 0 where
  pub network : String
  pub chain_adapter : String
  pub escrow_id : String
  pub token : String
  pub sme_address : String
  pub cap_per_tx : String
  pub suppliers : List (String × String)

-- `config.network`, `config.chain_adapter` and `config.escrow_id`
pub record Network : Type 0 where
  pub network : String
  pub chain_adapter : String
  pub escrow_id : String

abbrev is_least : Ordering → Bool
is_least Ordering.gt = false
is_least _ = true

abbrev named_before : String × String → String × String → Bool
named_before a b = is_least (compare a.0 b.0)

abbrev rule_or_empty : String → Tables → String
rule_or_empty key db = or_default (lookup key db.policy_rules) ""

unfoldable pub read_testnet_info : Tables → Network → TestnetInfo
read_testnet_info db n = record {
  network = n.network;
  chain_adapter = n.chain_adapter;
  escrow_id = n.escrow_id;
  token = rule_or_empty "token_address" db;
  sme_address = rule_or_empty "sme_address" db;
  cap_per_tx = rule_or_empty "cap_per_tx" db;
  suppliers = sort_by named_before (map (λ s. (s.name, s.address)) db.suppliers);
}

pub data Page : Type 0 where
  landing dashboard testnet bg_js mark : Page

-- the body before it is written as JSON or bytes
pub data Body : Type 0 where
  state : State → Body
  events : List (String × List (String × Value)) → Body
  metrics : Snapshot → Body
  info : TestnetInfo → Body
  plain : String → Body
  page : Page → Body
  error : String → Body

pub record Reply : Type 0 where
  pub code : ℕ
  pub content_type : String
  pub body : Body

abbrev json_reply : Body → Reply
json_reply body = record { code = 200; content_type = "application/json"; body = body }

abbrev page_reply : String → Page → Reply
page_reply content_type p = record { code = 200; content_type = content_type; body = page p }

abbrev html : String
html = "text/html; charset=utf-8"

-- the `except` clause
abbrev pub is_sqlite_error : Error → Bool
is_sqlite_error integrity_error = true
is_sqlite_error _ = false

abbrev pub guarded : Result Reply → Result Reply
guarded (ok r) = ok r
guarded (err e) =
    if is_sqlite_error e
    then ok
        (record { code = 500; content_type = "application/json"; body = error "internal error" })
    else err e

abbrev then_reply : {A : Type 0} → Result A → (A → Result Reply) → Result Reply
then_reply (ok a) f = f a
then_reply (err e) f = err e

-- `show` is `str` of an integer; `config` is what `Config.from_env` returns or raises, `network`
-- the same for `_config`.
module _ (show : ℤ → String) (db : Result Tables) (config : Result Config)
    (network : Result Network) where
  abbrev metrics_text : Snapshot → Result Reply
  metrics_text snap = elim (render_prometheus show snap) [
    | err e ↦ err e
    | ok t ↦ ok (record {
      code = 200;
      content_type = "text/plain; version=0.0.4; charset=utf-8";
      body = plain t;
    })
  ]

  -- the branches of the `try` block
  abbrev routed : String → Result Reply
  routed path =
      if path == "/api/state"
      then then_reply db (λ t. then_reply config (λ c. ok (json_reply (state (read_state t c)))))
      else if path == "/api/events"
      then then_reply db (λ t. ok (json_reply (events (read_events 100 t))))
      else if path == "/api/metrics"
      then then_reply db (λ t. ok (json_reply (metrics (snapshot t))))
      else if path == "/metrics"
      then then_reply db (λ t. metrics_text (snapshot t))
      else if path == "/" || path == "/index.html"
      then ok (page_reply html landing)
      else if path == "/dashboard" || path == "/dashboard.html"
      then ok (page_reply html dashboard)
      else if path == "/testnet"
      then ok (page_reply html testnet)
      else if path == "/lumo-bg.js"
      then ok (page_reply "application/javascript; charset=utf-8" bg_js)
      else if path == "/lumo-mark.png"
      then ok (page_reply "image/png" mark)
      else if path == "/testnet/info"
      then then_reply network
          (λ n. then_reply db (λ t. ok (json_reply (info (read_testnet_info t n)))))
      else ok (record { code = 404; content_type = "text/plain"; body = plain "not found" })

  unfoldable pub do_get : String → Result Reply
  unfolding read_state read_events read_testnet_info
  do_get path = guarded (routed path)
