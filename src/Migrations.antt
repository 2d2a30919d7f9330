-- ===== src/Migrations.antt =====
-- app/infrastructure/migrations/runner.py and startup_check.py: numbered SQL files, the history of a
-- database, and what brings the one up to the other. The texts of the messages are left out.
pub mod Load
pub mod Plan
pub mod Apply
pub mod Lock
use aethergrid.Base.{ℕ, ◌+◌, ◌≡◌, Bool, List, [], ◌∷◌, String}

-- `Migration`
pub record Migration : Type 0 where
  pub version : ℕ
  pub name : String
  pub sql : String
  pub checksum : String
  pub transactional : Bool

-- A row of `schema_migrations`.
pub record Row : Type 0 where
  pub version : ℕ
  pub name : String
  pub checksum : String

-- `_record` writes this row.
abbrev pub to_row : Migration → Row
to_row m = record { version = m.version; name = m.name; checksum = m.checksum }

-- `MigrationPlan`
pub record MigrationPlan : Type 0 where
  pub pending : List Migration
  pub ahead : List ℕ

module _ {A : Type 0} (version : A → ℕ) where
  -- The versions run from the given one on without a gap.
  abbrev pub Numbered : ℕ → List A → Type 0
  Numbered k [] = Unit
  Numbered k (x ∷ xs) = (version x ≡ k) × Numbered (k + 1) xs
