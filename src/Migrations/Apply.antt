-- ===== src/Migrations/Apply.antt =====
-- `_apply`, `_run_one`, `_record` and `_apply_locked` of app/infrastructure/migrations/runner.py, and
-- `check_schema` of startup_check.py. What SQL text does to the schema is a parameter.
pub mod Histories
pub mod Runs
use aethergrid.Base.{
  ℕ, Bool, true, false, Option, none, some, List, [], ◌∷◌, String, ltb, ◌==◌, any, if◌then◌else◌,
  Result, ok, raise, Action, and_then, pure, throw, gets, modify, of_result, ◌>>=◌, ◌>>◌,
  migration_error,
}
use aethergrid.Migrations.{Migration, Row, MigrationPlan, to_row}
use aethergrid.Migrations.Plan.{plan_migrations, is_empty}

-- A database: its schema but for the bookkeeping, the table `schema_migrations` in the order of the
-- versions, where there is one, and whether this connection holds the advisory lock.
pub record Connection (S : Type 0) : Type 0 where
  pub schema : S
  pub table : Option (List Row)
  pub holds_lock : Bool

abbrev pub rows_of : Option (List Row) → List Row
rows_of none = []
rows_of (some rows) = rows

unfoldable pub insert_row : Row → List Row → List Row
insert_row row [] = row ∷ []
insert_row row (r ∷ rows) =
    if ltb r.version row.version then r ∷ insert_row row rows else row ∷ r ∷ rows

-- Whether the primary key refuses a row with this version.
abbrev pub has_version : ℕ → List Row → Bool
has_version version rows = any (λ (r : Row). r.version == version) rows

module _ {S : Type 0} (execute : String → S → Bool × S) where
  -- Whether `_record` succeeds, and what it leaves.
  unfoldable pub record_row : Migration → Connection S → Bool × Connection S
  unfolding insert_row
  record_row m c =
      if has_version m.version (rows_of c.table)
      then (false, c)
      else (true, record c { table = some (insert_row (to_row m) (rows_of c.table)) })

  -- The statements of a migration and its row, one after the other. `execute` says whether the text
  -- succeeds and what it leaves, also where it fails.
  unfoldable pub run_statements : Migration → Connection S → Bool × Connection S
  unfolding record_row
  run_statements m c =
      let (good, schema) = execute m.sql c.schema in
      if good
      then record_row m (record c { schema = schema })
      else (false, record c { schema = schema })

  -- `_run_one`: whether it succeeds. A transaction that fails leaves nothing.
  unfoldable pub run_one : Migration → Connection S → Bool × Connection S
  unfolding run_statements
  run_one m c =
      let (good, c') = run_statements m c in
      if m.transactional then (if good then (true, c') else (false, c)) else (good, c')

  -- The loop of `_apply`.
  unfoldable pub apply_pending : List Migration → Action (Connection S) (List ℕ)
  unfolding run_one
  apply_pending [] c = (ok [], c)
  apply_pending (m ∷ ms) c =
      let (good, c') = run_one m c in
      let (r, c'') = apply_pending ms c' in
      if good
      then (and_then r (λ versions. ok (m.version ∷ versions)), c'')
      else (raise migration_error, c')

  -- `CREATE TABLE IF NOT EXISTS schema_migrations`
  abbrev pub create_table : Connection S → Connection S
  create_table c = record c { table = some (rows_of c.table) }

  -- `_apply`
  unfoldable pub apply : List Migration → Action (Connection S) (List ℕ)
  unfolding apply_pending
  apply migrations = do
    modify create_table
    plan ← of_result (plan_migrations (← gets (λ c. rows_of c.table)) migrations)
    apply_pending plan.pending

  -- `_release_lock`, which ignores an error of the connection.
  abbrev pub release_lock : Connection S → Connection S
  release_lock c = record c { holds_lock = false }

  -- `_apply_locked`, for the answer of `_take_lock`. The lock is released also where `_apply` raises.
  unfoldable pub apply_locked : (taken : Bool) → List Migration → Action (Connection S) (List ℕ)
  unfolding apply
  apply_locked taken migrations c =
      if taken
      then (let (r, c') = apply migrations (record c { holds_lock = true }) in (r, release_lock c'))
      else (raise migration_error, c)

-- `check_schema`: the versions that are ahead.
unfoldable pub check_schema : Option (List Row) → List Migration → Result (List ℕ)
check_schema none migrations = raise migration_error
check_schema (some recorded) migrations =
    and_then (plan_migrations recorded migrations)
      λ plan. if is_empty plan.pending then ok plan.ahead else raise migration_error
