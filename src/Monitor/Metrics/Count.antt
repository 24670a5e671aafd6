-- ===== src/Monitor/Metrics/Count.antt =====
-- The counter of an event goes up by one when the event is published.
use lumo.Base.{
  ℕ, ◌+◌, ◌≡◌, refl, ap, subst, sym, ◌∙◌, false, List, [], ◌∷◌, ◌++◌, String, ◌==◌, eq_iff,
  if◌then◌else◌, ok, Bool-cases, inl, inr, arith, map,
}
use lumo.Monitor.{Value}
use lumo.Monitor.Metrics.{Counters, counted, counts, count_event, counter_events}
use lumo.Db.Rows.{EventRow}

counts-last :
    (rs : List EventRow) (r : EventRow) (n : String)
    → counts (rs ++ r ∷ []) n ≡ (if n == r.name then counts rs n + 1 else counts rs n)
counts-last [] r n = ground arith
counts-last (x ∷ rs) r n = ground (arith, counts-last rs r n)

-- the table with one more of the event `n`
abbrev table_after : (String → ℕ) → String → List (String × String) → Counters
table_after f n t = map (λ e. (e.0, if e.1 == n then f e.1 + 1 else f e.1)) t

counted-last :
    (t : List (String × String)) (rs : List EventRow) (r : EventRow)
    → map (λ e. (e.0, counts (rs ++ r ∷ []) e.1)) t ≡ table_after (counts rs) r.name t
counted-last [] rs r = refl
counted-last (e ∷ t) rs r = rw (counts-last rs r e.1, counted-last t rs r) refl

module _ (f : String → ℕ) (p : List (String × Value)) where
  abbrev CountsNext : String → Type 0
  CountsNext n =
      count_event (record { name = n; payload = p }) (map (λ e. (e.0, f e.1)) counter_events)
      ≡ (ok tt, table_after f n counter_events)

  split_name : (n m : String) → CountsNext m → (((m == n) ≡ false) → CountsNext n) → CountsNext n
  split_name n m hit miss = elim (Bool-cases (m == n)) [
    | inl e ↦ subst (λ x. CountsNext x) ((eq_iff m n).0 e) hit
    | inr e ↦ miss e
  ]

  count_event-next : (n : String) → CountsNext n
  unfolding count_event
  count_event-next n = split_name n "intent.proposed" refl λ a.
      split_name n "intent.refused" refl λ b. split_name n "injection.blocked" refl λ c.
        split_name n "intent.held" refl λ d. split_name n "intent.released" refl λ e.
          split_name n "intent.reverted" refl
            λ g. split_name n "intent.refunded" refl λ h. ground arith

pub count_event-counted :
    (rs : List EventRow) (r : EventRow)
    → count_event (record { name = r.name; payload = r.payload }) (counted rs)
      ≡ (ok tt, counted (rs ++ r ∷ []))
count_event-counted rs r =
    count_event-next (counts rs) r.payload r.name
    ∙ ap (λ c. (ok tt, c)) (sym (counted-last counter_events rs r))
