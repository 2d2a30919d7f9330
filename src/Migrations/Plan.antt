-- ===== src/Migrations/Plan.antt =====
-- `plan_migrations` of app/infrastructure/migrations/runner.py
pub mod Versions
pub mod Agreement
use text.Mathlib.Text.{◌==◌ as str_eq}
use aethergrid.Base.{
  ℕ, ◌+◌, Bool, true, false, not, Option, none, some, List, [], ◌∷◌, String, ltb, ◌==◌, ◌&&◌, arith,
  length, filter, if◌then◌else◌, Result, ok, raise, and_then, migration_error,
}
use aethergrid.Migrations.{Migration, Row, MigrationPlan}

-- The first loop: the recorded versions are 1, 2, ….
unfoldable pub check_history : ℕ → List Row → Result (Unit {0})
check_history expected [] = ok tt
check_history expected (row ∷ rows) =
    let rest = check_history (expected + 1) rows in
    if row.version == expected then rest else raise migration_error

-- `max(…, default=0)`
unfoldable pub highest : List Migration → ℕ
highest [] = 0
highest (m ∷ ms) = let rest = highest ms in if ltb rest m.version then m.version else rest

-- `{m.version: m for m in migrations}.get(version)`: of two, the later.
unfoldable pub by_version : ℕ → List Migration → Option Migration
by_version version [] = none
by_version version (m ∷ ms) = elim (by_version version ms) [
  | some n ↦ some n
  | none ↦ if m.version == version then some m else none
]

-- The body of the second loop: whether the row is ahead of the set.
unfoldable pub compare_row : List Migration → Row → Result Bool
unfolding highest by_version
compare_row migrations row = elim (by_version row.version migrations) [
  | none ↦ if ltb (highest migrations) row.version then ok true else raise migration_error
  | some known ↦ if str_eq known.checksum row.checksum then ok false else raise migration_error
]

unfoldable pub compare_rows : List Migration → List Row → Result (List ℕ)
unfolding compare_row
compare_rows migrations [] = ok []
compare_rows migrations (row ∷ rows) = and_then (compare_row migrations row) λ is_ahead.
    and_then (compare_rows migrations rows)
      λ ahead. ok (if is_ahead then row.version ∷ ahead else ahead)

abbrev pub is_empty : {A : Type 0} → List A → Bool
is_empty [] = true
is_empty (_ ∷ _) = false

-- `plan_migrations`
unfoldable pub plan_migrations : List Row → List Migration → Result MigrationPlan
unfolding check_history compare_rows
plan_migrations recorded migrations = and_then (check_history 1 recorded) λ _.
    if not (is_empty recorded) && is_empty migrations
    then raise migration_error
    else and_then (compare_rows migrations recorded) λ ahead. ok (record {
      pending = filter (λ (m : Migration). ltb (length recorded) m.version) migrations;
      ahead = ahead;
    })
