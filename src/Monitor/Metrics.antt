-- ===== src/Monitor/Metrics.antt =====
-- lumo/monitor/metrics.py: the counters that a subscriber keeps, and the snapshot that is taken
-- from the database.
pub mod Count
pub mod Live
use Prim.Native.Char.{code}
use Prim.Native.String
use Prim.Native.String.{◌++◌ as str_append}
use lumo.Base.{
  ℕ, ℤ, pos, ◌+◌, ◌+ℤ◌, Bool, true, false, Option, none, some, List, [], ◌∷◌, ◌++◌, String, ◌==◌,
  if◌then◌else◌, nat_eq, map, foldl, select, row_count, lookup, insert, or_default, Result, ok, err,
  key_error,
}
use lumo.Models.{Status}
use lumo.Monitor.{Event, Subscriber}
use lumo.Db.Rows.{Intent, EventRow, Tables}

-- COUNTERS: a counter and the event that it counts
abbrev pub counter_events : List (String × String)
counter_events =
    ("proposed", "intent.proposed")
    ∷ ("refused", "intent.refused")
    ∷ ("injection_blocked", "injection.blocked")
    ∷ ("held", "intent.held")
    ∷ ("released", "intent.released")
    ∷ ("reverted", "intent.reverted")
    ∷ ("refunded", "intent.refunded")
    ∷ []

-- EVENT_TO_COUNTER
abbrev pub event_to_counter : List (String × String)
event_to_counter = map (λ e. (e.1, e.0)) counter_events

-- PROM_COUNTERS
abbrev pub prom_counters : List (String × String)
prom_counters =
    ("proposed", "lumo_intents_proposed_total")
    ∷ ("refused", "lumo_intents_refused_total")
    ∷ ("injection_blocked", "lumo_injection_blocked_total")
    ∷ ("held", "lumo_intents_held_total")
    ∷ ("released", "lumo_intents_released_total")
    ∷ ("reverted", "lumo_intents_reverted_total")
    ∷ ("refunded", "lumo_intents_refunded_total")
    ∷ []

-- PROM_GAUGES
abbrev pub prom_gauges : List (String × String)
prom_gauges =
    ("escrowed_value", "lumo_escrowed_value_stroops") ∷ ("intents_open", "lumo_intents_open") ∷ []

abbrev pub Counters : Type 0
Counters = List (String × ℕ)

-- `dict.fromkeys(COUNTERS, 0)`
abbrev pub no_counts : Counters
no_counts = map (λ e. (e.0, 0)) counter_events

-- `self.counters[counter] += 1`
abbrev pub add_one : String → Counters → Result (Unit {0}) × Counters
add_one counter c = elim (lookup counter c) [
  | none ↦ (err key_error, c)
  | some n ↦ (ok tt, insert counter (n + 1) c)
]

-- `Metrics.__call__`
unfoldable pub count_event : Subscriber Counters
count_event event c = elim (lookup event.name event_to_counter) [
  | none ↦ (ok tt, c)
  | some counter ↦ add_one counter c
]

pub record Snapshot : Type 0 where
  pub counters : Counters
  pub escrowed_value : ℤ
  pub intents_open : ℕ

-- `counts.get(event, 0)`, where `counts` are the events by their names
abbrev pub counts : List EventRow → String → ℕ
counts rows event = row_count (λ r. event == r.name) rows

abbrev pub counted : List EventRow → Counters
counted rows = map (λ e. (e.0, counts rows e.1)) counter_events

abbrev pub is_escrowed : Status → Bool
is_escrowed Status.escrowed = true
is_escrowed _ = false

abbrev pub is_open : Status → Bool
is_open Status.proposed = true
is_open Status.held = true
is_open Status.escrowed = true
is_open _ = false

abbrev add_value : ℤ → Intent → ℤ
add_value v r = v +ℤ r.amount

unfoldable pub snapshot : Tables → Snapshot
snapshot db = record {
  counters = counted db.events;
  escrowed_value = foldl add_value (pos 0) (select (λ r. is_escrowed r.status) db.intents);
  intents_open = row_count (λ r. is_open r.status) db.intents;
}

-- `gauge.replace("_", " ")`
unfoldable pub spaced : String → String
spaced String.[] = String.[]
spaced (String.◌∷◌ c s) =
    let rest = spaced s in if nat_eq (code c) b'_' then str_append " " rest else String.◌∷◌ c rest

infixr 5 ◌+++◌
abbrev pub ◌+++◌ : String → String → String
a +++ b = str_append a b

-- `show` is `str` of an integer.
module _ (show : ℤ → String) where
  abbrev pub metric_lines : String → String → String → String → List String
  metric_lines metric help kind value =
      ("# HELP " +++ metric +++ " " +++ help)
      ∷ ("# TYPE " +++ metric +++ " " +++ kind)
      ∷ (metric +++ " " +++ value)
      ∷ []

  abbrev pub counter_lines : Snapshot → List (String × String) → Result (List String)
  counter_lines snap [] = ok []
  counter_lines snap ((counter, metric) ∷ cs) = elim (lookup counter snap.counters) [
    | none ↦ err key_error
    | some n ↦ elim (counter_lines snap cs) [
      | err e ↦ err e
      | ok rest ↦ ok (
          metric_lines metric
            ("Total " +++ or_default (lookup counter counter_events) "" +++ " events.") "counter"
            (show (pos n))
          ++ rest)
    ]
  ]

  abbrev pub gauge_value : Snapshot → String → ℤ
  gauge_value snap gauge =
      if gauge == "escrowed_value" then snap.escrowed_value else pos snap.intents_open

  unfoldable pub gauge_lines : Snapshot → List (String × String) → List String
  unfolding spaced
  gauge_lines snap [] = []
  gauge_lines snap ((gauge, metric) ∷ gs) =
      metric_lines metric ("Current " +++ spaced gauge +++ ".") "gauge"
        (show (gauge_value snap gauge))
      ++ gauge_lines snap gs

  -- every line with the line end that `"\n".join` or the last `+` puts behind it
  abbrev pub end_lines : List String → String
  end_lines [] = ""
  end_lines (l ∷ ls) = l +++ "\n" +++ end_lines ls

  unfoldable pub render_prometheus : Snapshot → Result String
  unfolding gauge_lines
  render_prometheus snap = elim (counter_lines snap prom_counters) [
    | err e ↦ err e
    | ok lines ↦ ok (end_lines (lines ++ gauge_lines snap prom_gauges))
  ]
