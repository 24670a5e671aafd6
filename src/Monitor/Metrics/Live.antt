-- ===== src/Monitor/Metrics/Live.antt =====
-- The counters that a subscriber keeps agree with those that the database gives.
use lumo.Base.{
  Result, ok, err, ◌≡◌, refl, ap, sym, ◌∙◌, true, List, [], ◌∷◌, ◌++◌, String, ◌==◌, Action, ok,
  Bool-cases, inl, inr, any,
}
use lumo.Base.Stays.{Stays, IsPreorder}
use lumo.Monitor.{Event, Value, publish, notify}
use lumo.Monitor.Metrics.{Counters, counted, count_event, snapshot}
use lumo.Db.Rows.{EventRow, Tables, insert_event}
use lumo.Db.Repo.{Repo, emit, on_db}
use lumo.Db.Decide.{Decision, record_decision}
use lumo.Db.Decide.Stays.{record_decision-Stays, writes}
use lumo.Db.Decide.Events.{SameEvents, writes-SameEvents}
use lumo.Monitor.Metrics.Count.{count_event-counted}

-- The metrics are the only subscriber, and the bus is on.
record IsLive (s : Repo Counters) : Type 0 where
  listeners : s.bus.subscribers ≡ count_event ∷ []
  enabled : s.bus.enabled ≡ true
  counters : s.bus.env ≡ counted s.db.events

abbrev StaysLive : Repo Counters → Repo Counters → Type 0
StaysLive s t = IsLive s → IsLive t

StaysLive-preorder : IsPreorder StaysLive
StaysLive-preorder = record { start = λ s u. u; chain = λ a b c f g u. g (f u) }

notify-only :
    (event : Event) (c c' : Counters)
    → count_event event c ≡ (ok tt, c')
    → notify (count_event ∷ []) event c ≡ (ok tt, c')
unfolding notify
notify-only event c c' h =
    ap
      (λ (q : Result (Unit {0}) × Counters). elim q.0 [
        | ok _ ↦ (ok tt, q.1)
        | err e ↦ (err e, q.1)
      ])
      h

emit-StaysLive :
    (name : String) (p : List (String × Value)) (s : Repo Counters) → StaysLive s (emit name p s).1
unfolding emit publish insert_event
emit-StaysLive name p s o = elim (Bool-cases (any (λ q. q.id == s.ids s.minted) s.db.events)) [
  | inl old ↦
      rw (o.enabled, old)
        (record { listeners = o.listeners; enabled = refl; counters = o.counters })
  | inr new ↦
      (let r : EventRow = record { id = s.ids s.minted; name = name; payload = p } in
        let event : Event = record { name = name; payload = p } in
        rw
          (
            o.enabled,
            new,
            o.listeners,
            o.counters,
            notify-only event (counted s.db.events) (counted (s.db.events ++ r ∷ []))
                (count_event-counted s.db.events r),
          )
          (record { listeners = refl; enabled = refl; counters = refl }))
]

on_db-StaysLive :
    {A : Type 0} (m : Action Tables A) → Stays SameEvents m → Stays StaysLive (on_db m)
on_db-StaysLive m k = record {
  at_state = λ s o. record {
    listeners = o.listeners;
    enabled = o.enabled;
    counters = o.counters ∙ ap counted (sym (k.at_state s.db).events);
  };
}

record_decision-StaysLive : (d : Decision) → Stays StaysLive (record_decision d)
record_decision-StaysLive d =
    record_decision-Stays StaysLive-preorder
      (λ s o. record { listeners = o.listeners; enabled = o.enabled; counters = o.counters }) d
      (λ id o now. on_db-StaysLive (writes d id o now) (writes-SameEvents d id o now))
      (λ name p. record { at_state = emit-StaysLive name p })

-- Calls of `record_decision` one after another, whether or not one raises.
unfoldable pub record_all : List Decision → Repo Counters → Repo Counters
record_all [] s = s
record_all (d ∷ ds) s = record_all ds (record_decision d s).1

record_all-IsLive : (ds : List Decision) (s : Repo Counters) → IsLive s → IsLive (record_all ds s)
unfolding record_all
record_all-IsLive [] s o = o
record_all-IsLive (d ∷ ds) s o =
    record_all-IsLive ds (record_decision d s).1 ((record_decision-StaysLive d).at_state s o)

-- Start with an event bus that is on, whose only subscriber is a `Metrics`, and with its counters
-- equal to those that `snapshot` gives from the database. They are equal after any list of calls
-- of `record_decision`, each followed by the next whether or not it raised.
pub counters-snapshot :
    (ds : List Decision) (s : Repo Counters)
    → s.bus.subscribers ≡ count_event ∷ []
    → s.bus.enabled ≡ true
    → s.bus.env ≡ (snapshot s.db).counters
    → (record_all ds s).bus.env ≡ (snapshot (record_all ds s).db).counters
unfolding snapshot
counters-snapshot ds s one on same =
    (record_all-IsLive ds s (record { listeners = one; enabled = on; counters = same })).counters
