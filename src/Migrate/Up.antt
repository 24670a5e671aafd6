-- ===== src/Migrate/Up.antt =====
-- lumo/db/migrate.py: what `up` runs, once and again.
use lumo.Base.{
  bind_state, append_assoc, append-nil, ◌&&◌, ◌≡◌, refl, ap, sym, ◌∙◌, true, false, not, List, [],
  ◌∷◌, ◌++◌, String, ◌==◌, eq_iff, eq_refl, elem, select, All, Action, ok, Bool-cases, inl, inr,
  arith, bind_ok, ◌||◌,
}
use lumo.Migrate.{Database, execute, insert_migration, run_next, run_up, up, applied}

elem-append : (x : String) (xs ys : List String) → elem x (xs ++ ys) ≡ (elem x xs || elem x ys)
elem-append x [] ys = refl
elem-append x (z ∷ xs) ys = ground (arith, elem-append x xs ys)

abbrev pub pending : List String → List String → List String
pending done migs = select (λ mig. not (elem mig done)) migs

elem-pending :
    (x : String) (done migs : List String)
    → elem x (pending done migs) ≡ (elem x migs && not (elem x done))
elem-pending x done [] = refl
elem-pending x done (m ∷ migs) = elim (Bool-cases (m == x)) [
  | inl same ↦
      (let e : m ≡ x = (eq_iff m x).0 same in
        let agree : elem m done ≡ elem x done = ap (λ y. elem y done) e in
        ground (arith, elem-pending x done migs))
  | inr differ ↦ ground (arith, elem-pending x done migs)
]

All-elem :
    (Q : String → Type 0) (xs : List String) → ((x : String) → elem x xs ≡ true → Q x) → All Q xs
All-elem Q [] f = tt
All-elem Q (x ∷ xs) f = (f x (ground (arith, eq_refl x)), All-elem Q xs (λ y h. f y (ground arith)))

-- If `m` returns, it has put what it returns at the end of the table.
record Adds {X : Type 0} (migs : List String) (m : Action (Database X) (List String)) : Type 0 where
  ran : (s : Database X) (r : List String) → (m s).0 ≡ ok r → r ≡ migs
  table :
      (s : Database X) (r : List String)
      → (m s).0 ≡ ok r
      → (m s).1.schema_migrations ≡ s.schema_migrations ++ migs

module _ {X : Type 0} (script : String → Action X (Unit {0}))
    (order_by_id : List String → List String) where
  insert_migration_ok :
      (mig : String) (s : Database X)
      → (insert_migration mig s).0 ≡ ok tt
      → (insert_migration mig s).1.schema_migrations ≡ s.schema_migrations ++ mig ∷ []
  insert_migration_ok mig s h = elim (Bool-cases (elem mig s.schema_migrations)) [
    | inl taken ↦ absurd (ground arith)
    | inr free ↦ rw free refl
  ]

  run_next-Adds :
      (mig : String) (migs : List String) (rest : Action (Database X) (List String))
      → Adds migs rest
      → Adds (mig ∷ migs) (run_next false script mig rest)
  run_next-Adds mig migs rest adds = record {
    ran = λ s r h.
        let (_, done, h2) = bind_ok (execute (script mig) s) _ r h in
        let s1 = (execute (script mig) s).1 in
        let (_, put, h3) = bind_ok (insert_migration mig s1) _ r h2 in
        let s2 = (insert_migration mig s1).1 in
        let (q, went, h4) = bind_ok (rest s2) _ r h3 in
        let same = adds.ran s2 q went in ground arith;
    table = λ s r h.
        let (_, done, h2) = bind_ok (execute (script mig) s) _ r h in
        let s1 = (execute (script mig) s).1 in
        let (_, put, h3) = bind_ok (insert_migration mig s1) _ r h2 in
        let s2 = (insert_migration mig s1).1 in
        let (q, went, h4) = bind_ok (rest s2) _ r h3 in
        ap (λ (t : Database X). t.schema_migrations)
          (bind_state (execute (script mig) s) _ tt done
            ∙ (bind_state (insert_migration mig s1) _ tt put ∙ bind_state (rest s2) _ q went))
        ∙ (adds.table s2 q went
            ∙ (ap (λ t. t ++ migs) (insert_migration_ok mig s1 put)
                ∙ append_assoc s.schema_migrations (mig ∷ []) migs));
  }

  run_up-Adds :
      (done migs : List String) → Adds (pending done migs) (run_up script order_by_id done migs)
  unfolding run_up
  run_up-Adds done [] = record {
    ran = λ s r h. ground arith;
    table = λ s r h. sym (append-nil s.schema_migrations);
  }
  run_up-Adds done (mig ∷ migs) = elim (Bool-cases (elem mig done)) [
    | inl old ↦ rw (run_up, old) (run_up-Adds done migs)
    | inr new ↦
        rw (run_up, new)
          (run_next-Adds mig (pending done migs) (run_up script order_by_id done migs)
            (run_up-Adds done migs))
  ]

  run_up_nothing :
      (done migs : List String) (s : Database X)
      → All (λ mig. elem mig done ≡ true) migs
      → run_up script order_by_id done migs s ≡ (ok [], s)
  unfolding run_up
  run_up_nothing done [] s h = refl
  run_up_nothing done (mig ∷ migs) s (h, hs) = rw (run_up, h) (run_up_nothing done migs s hs)

  -- If `up` returns, it has run exactly the available migrations that were not applied before, in
  -- their order, and has put them at the end of the table of applied migrations.
  up-pending :
      (available ran : List String) (s : Database X)
      → (up script order_by_id available s).0 ≡ ok ran
      → (ran ≡ pending (applied script order_by_id s) available)
        × ((up script order_by_id available s).1.schema_migrations ≡ s.schema_migrations ++ ran)
  unfolding up
  up-pending available ran s h =
      let adds = run_up-Adds (applied script order_by_id s) available in
      let same = adds.ran s ran h in (same, rw same (adds.table s ran h))

  -- Let the order of the rows lose none and add none. If `up` returns, a further `up` runs nothing
  -- and changes nothing.
  up-up :
      (available ran : List String) (s : Database X)
      → ((x : String) (xs : List String) → elem x (order_by_id xs) ≡ elem x xs)
      → (up script order_by_id available s).0 ≡ ok ran
      → up script order_by_id available (up script order_by_id available s).1
        ≡ (ok [], (up script order_by_id available s).1)
  unfolding up applied
  up-up available ran s order h =
      let s' = (up script order_by_id available s).1 in
      let (same, table) = up-pending available ran s h in
      run_up_nothing (applied script order_by_id s') available s' (
        All-elem (λ mig. elem mig (applied script order_by_id s') ≡ true) available
          λ x there.
            rw
              (
                order x s'.schema_migrations,
                table,
                elem-append x s.schema_migrations ran,
                same,
                elem-pending x (order_by_id s.schema_migrations) available,
                order x s.schema_migrations,
                there,
              )
              (ground arith))

  pub up_lem :
      (available ran : List String) (s : Database X)
      → ((x : String) (xs : List String) → elem x (order_by_id xs) ≡ elem x xs)
      → (up script order_by_id available s).0 ≡ ok ran
      → (ran ≡ pending (applied script order_by_id s) available)
        × ((up script order_by_id available s).1.schema_migrations ≡ s.schema_migrations ++ ran)
        × (up script order_by_id available (up script order_by_id available s).1
            ≡ (ok [], (up script order_by_id available s).1))
  up_lem available ran s order h =
      let (same, table) = up-pending available ran s h in
      (same, table, up-up available ran s order h)
