-- ===== src/Monitor/Recent.antt =====
-- The bus remembers a bounded number of events, the latest ones.
use lumo.Base.{◌≤◌, ◌≡◌, List, [], ◌∷◌, ◌++◌, arith, length, Bool-cases, inl, inr, suc}
use lumo.Monitor.{Event, EventBus, publish, append_recent, max_recent}

length-append_one {ℓ} : {A : Type ℓ} (xs : List A) (x : A) → length (xs ++ x ∷ []) ≡ suc (length xs)
length-append_one [] x = omega arith
length-append_one (y ∷ xs) x = omega (arith, length-append_one xs x)

append_recent_bound :
    (xs : List Event) (e : Event)
    → length xs ≤ max_recent
    → length (append_recent xs e) ≤ max_recent
unfolding append_recent
append_recent_bound [] e h = omega arith
append_recent_bound (x ∷ xs) e h =
    ground (arith, length-append_one xs e, length-append_one (x ∷ xs) e)

pub recent-publish :
    {E : Type 0} (event : Event) (bus : EventBus E)
    → length bus.recent ≤ max_recent
    → length (publish event bus).1.recent ≤ max_recent
unfolding publish
recent-publish event bus h = elim (Bool-cases bus.enabled) [
  | inl on ↦ rw on (append_recent_bound bus.recent event h)
  | inr off ↦ rw off h
]
