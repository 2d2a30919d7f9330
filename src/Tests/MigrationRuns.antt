-- ===== src/Tests/MigrationRuns.antt =====
-- Runs of the migrations on small sets.
use aethergrid.Base.{
  ℕ, ◌+◌, ◌≡◌, ◌↔◌, refl, Bool, true, false, none, some, List, [], ◌∷◌, ltb, if◌then◌else◌, arith,
  String, ok,
}
use text.Mathlib.Text.{◌==◌ as str_eq}
use aethergrid.Migrations.{Migration, Numbered, to_row}
use aethergrid.Migrations.Load.{Reader, File, load_migrations, Loads, load_migrations-Loads}
use aethergrid.Migrations.Plan.{plan_migrations}
use aethergrid.Migrations.Plan.Agreement.{IsPlanned, plan_migrations_iff}
use aethergrid.Migrations.Apply.{Connection, apply, check_schema}
use aethergrid.Migrations.Apply.Runs.{Runs, apply-Runs, apply_again}
use aethergrid.Migrations.Lock.{take_lock, take_lock_ends}

abbrev first : Migration
first = record {
  version = 1;
  name = "0001_jobs.sql";
  sql = "jobs";
  checksum = "jobs";
  transactional = true;
}

abbrev second : Migration
second = record {
  version = 2;
  name = "0002_nodes.sql";
  sql = "nodes";
  checksum = "nodes";
  transactional = true;
}

abbrev both : List Migration
both = first ∷ second ∷ []

-- A directory of which each file holds its own digest.
abbrev reader : Reader
reader = record {
  Bytes = String;
  is_sql = λ name. true;
  version_of = λ name. some (if str_eq name "0001_jobs.sql" then 1 else 2);
  decode = λ bytes. some bytes;
  sha256 = λ bytes. bytes;
  first_line = λ text. text;
}

abbrev files : List (File String)
files =
    record { name = "0001_jobs.sql"; content = "jobs" }
    ∷ record { name = "0002_nodes.sql"; content = "nodes" }
    ∷ []

load_migrations-Loads_example :
    Loads reader files [] both × Numbered (λ (m : Migration). m.version) 1 both
unfolding load_migrations
load_migrations-Loads_example = load_migrations-Loads reader files both refl

plan_migrations_iff_example :
    (plan_migrations (to_row first ∷ []) both ≡ ok (record { pending = second ∷ []; ahead = [] }))
    ↔ IsPlanned both
        (refl, (refl, tt))
        (to_row first ∷ [])
        (record { pending = second ∷ []; ahead = [] })
plan_migrations_iff_example =
    plan_migrations_iff both (refl, (refl, tt)) (to_row first ∷ [])
      (record { pending = second ∷ []; ahead = [] })

-- The number of texts that ran; "broken" fails.
abbrev counting : String → ℕ → Bool × ℕ
counting sql n = if str_eq sql "broken" then (false, n + 100) else (true, n + 1)

abbrev fresh : Connection ℕ
fresh = record { schema = 0; table = none; holds_lock = false }

abbrev migrated : Connection ℕ
migrated = record {
  schema = 2;
  table = some (to_row first ∷ to_row second ∷ []);
  holds_lock = false;
}

apply-Runs_example : Runs counting both (refl, (refl, tt)) fresh (apply counting both fresh)
apply-Runs_example = apply-Runs counting both (refl, (refl, tt)) fresh

apply_again_example :
    (apply counting both migrated ≡ (ok [], migrated))
    × ((ahead : List ℕ) × (check_schema migrated.table both ≡ ok ahead))
unfolding apply plan_migrations
apply_again_example = apply_again counting both (refl, (refl, tt)) fresh migrated (1 ∷ 2 ∷ []) refl

take_lock_ends_example :
    (taken : Bool) × (take_lock (λ k. ltb 3 k) (λ k. 50000 + k) 0 9 ≡ some taken)
take_lock_ends_example =
    take_lock_ends (λ k. ltb 3 k) (λ k. 50000 + k) 0 9 (λ j. omega arith) (omega arith)
