-- ===== src/Store.antt =====
-- The tables behind app/infrastructure/repositories/postgres_*_repository.py. A read builds a new
-- object from the row and a save writes one row, so no two callers share an object. Each call is one
-- committed statement. PostgreSQL itself is not modelled: a statement means what its SQL text says,
-- with the keys of schema.sql and migrations/versions (primary keys, the unique worker and job of a
-- lease, the references between these tables and their ON DELETE actions, but neither the keys to
-- tenants nor the ranges of the INTEGER columns). The order in which a SELECT
-- without ORDER BY returns rows is the order of the list.
pub mod Jobs
pub mod Nodes
pub mod Workers
pub mod Leases
pub mod Events
pub mod Consistent
pub mod Sqlite
use aethergrid.Base.{ℕ, Bool, Option, List, [], ◌∷◌, ◌==◌, ◌&&◌, if◌then◌else◌, any}
use aethergrid.Domain.Resources.{Time}
use aethergrid.Domain.Job.{Job}
use aethergrid.Domain.Node.{Node}
use aethergrid.Domain.Worker.{WorkerStatus, WorkerManagement}
use aethergrid.Domain.Lease.{Lease}
use aethergrid.Domain.Event.{Event}

-- A row of `workers`: the node and the job are references.
pub record WorkerRow : Type 0 where
  pub id : ℕ
  pub node_id : ℕ
  pub tenant_id : ℕ
  pub status : WorkerStatus
  pub managed_by : WorkerManagement
  pub running_job_id : Option ℕ
  pub last_seen_at : Time

pub record Db : Type 0 where
  pub jobs : List Job
  pub nodes : List Node
  pub workers : List WorkerRow
  pub leases : List Lease
  pub events : List Event

module _ {A : Type 0} (key : A → ℕ) where
  -- `INSERT … ON CONFLICT (id) DO UPDATE`
  abbrev pub upsert : A → List A → List A
  upsert row [] = row ∷ []
  upsert row (r ∷ rows) = if key r == key row then row ∷ rows else r ∷ upsert row rows

module _ {A : Type 0} (key tenant : A → ℕ) where
  -- A row with this id in this tenant: what a composite foreign key asks for.
  abbrev pub references : ℕ → ℕ → List A → Bool
  references id tenant_id = any (λ row. key row == id && tenant row == tenant_id)
