-- ===== src/Monitor.antt =====
-- lumo/monitor/events.py: the event bus. `E` is the world in which the subscribers act (their
-- counters, the network); they do not touch the bus or the database. An event's time stamp is not
-- modelled.
pub mod Recent
pub mod Metrics
pub mod Webhooks
use lumo.Base.{
  ℕ, ◌+◌, Bool, true, false, Option, none, some, List, [], ◌∷◌, ◌++◌, String, if◌then◌else◌, leb,
  length, Action, Result, ok, err,
}

-- A field of an event's payload, before JSON.
pub data Value : Type 0 where
  text : Option String → Value
  texts : List String → Value

pub record Event : Type 0 where
  pub name : String
  pub payload : List (String × Value)

abbrev pub Subscriber : Type 0 → Type 0
Subscriber E = Event → Action E (Unit {0})

pub record EventBus (E : Type 0) : Type 0 where
  pub enabled : Bool
  pub subscribers : List (Subscriber E)
  pub recent : List Event
  pub env : E

abbrev pub max_recent : ℕ
max_recent = 200

-- `deque(maxlen=200).append`: the oldest entry falls out of a full deque.
unfoldable pub append_recent : List Event → Event → List Event
append_recent [] e = e ∷ []
append_recent (x ∷ xs) e =
    if leb max_recent (length (x ∷ xs)) then xs ++ e ∷ [] else (x ∷ xs) ++ e ∷ []

-- The subscribers in turn; the first that raises ends the loop.
unfoldable pub notify : {E : Type 0} → List (Subscriber E) → Event → Action E (Unit {0})
notify [] event env = (ok tt, env)
notify (s ∷ ss) event env =
    let (r, env') = s event env in
    let rest = notify ss event env' in elim r [ ok _ ↦ rest | err e ↦ (err e, env') ]

module _ {E : Type 0} where
  unfoldable pub subscribe : Subscriber E → EventBus E → EventBus E
  subscribe s bus = record bus { subscribers = bus.subscribers ++ s ∷ [] }

  unfoldable pub publish : Event → Action (EventBus E) (Unit {0})
  publish event bus =
      if bus.enabled
      then (let (r, env) = notify bus.subscribers event bus.env in
          (r, record bus { recent = append_recent bus.recent event; env = env }))
      else (ok tt, bus)
