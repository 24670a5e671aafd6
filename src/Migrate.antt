-- ===== src/Migrate.antt =====
-- lumo/db/migrate.py: the schema migrations. `X` is the schema with its rows; the SQL scripts, the
-- directory of migrations and SQLite's order of texts are parameters. A script that raises leaves
-- what it has done, because `executescript` runs outside the transaction.
pub mod Up
use lumo.Base.{
  ℕ, zero, suc, ◌-◌, Bool, true, false, not, Option, none, some, List, [], ◌∷◌, ◌++◌, String, ◌==◌,
  if◌then◌else◌, elem, select, length, Action, Result, ok, err, integrity_error, pure, gets, modify,
  raise_if, ◌>>=◌, ◌>>◌,
}

-- The table `schema_migrations`, which `_ensure_tracking` makes if it is not there, and the rest.
pub record Database (X : Type 0) : Type 0 where
  pub schema_migrations : List String
  pub schema : X

abbrev pub drop : ℕ → List String → List String
drop zero xs = xs
drop (suc n) [] = []
drop (suc n) (x ∷ xs) = drop n xs

abbrev pub reversed : List String → List String
reversed [] = []
reversed (x ∷ xs) = reversed xs ++ x ∷ []

-- `applied[-steps:] if steps else []`
abbrev pub last_steps : ℕ → List String → List String
last_steps steps ids = drop (length ids - steps) ids

module _ {X : Type 0} where
  abbrev pub execute : Action X (Unit {0}) → Action (Database X) (Unit {0})
  execute m s = let (r, x) = m s.schema in (r, record s { schema = x })

  abbrev pub insert_migration : String → Action (Database X) (Unit {0})
  insert_migration mig = do
    taken ← gets (λ s. elem mig s.schema_migrations)
    raise_if taken integrity_error
    modify (λ s. record s { schema_migrations = s.schema_migrations ++ mig ∷ [] })

  abbrev pub delete_migration : String → Action (Database X) (Unit {0})
  delete_migration mig =
      modify
        λ s. record s { schema_migrations = select (λ id. not (id == mig)) s.schema_migrations }

  -- A migration that is done is passed over; another is run, and the rest follow.
  abbrev pub run_next :
      Bool
      → (String → Action X (Unit {0}))
      → String
      → Action (Database X) (List String)
      → Action (Database X) (List String)
  run_next true script mig rest = rest
  run_next false script mig rest = do
    execute (script mig)
    insert_migration mig
    ran ← rest
    pure (mig ∷ ran)

-- `available` are the sorted names of the `.up.sql` files.
module _ {X : Type 0} (script : String → Action X (Unit {0}))
    (order_by_id : List String → List String) where
  unfoldable pub applied : Database X → List String
  applied s = order_by_id s.schema_migrations

  unfoldable pub run_up : List String → List String → Action (Database X) (List String)
  run_up done [] = pure []
  run_up done (mig ∷ migs) = run_next (elem mig done) script mig (run_up done migs)

  unfoldable pub up : List String → Action (Database X) (List String)
  unfolding run_up applied
  up available s = run_up (applied s) available s

  unfoldable pub run_down : List String → Action (Database X) (List String)
  run_down [] = pure []
  run_down (mig ∷ migs) = do
    execute (script mig)
    delete_migration mig
    ran ← run_down migs
    pure (mig ∷ ran)

  unfoldable pub down : ℕ → Action (Database X) (List String)
  unfolding run_down applied
  down steps s = run_down (reversed (last_steps steps (applied s))) s
