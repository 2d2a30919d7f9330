-- ===== src/Store/Consistent.antt =====
-- What the keys of schema.sql and migrations/versions keep true of the tables, whatever processes
-- write to them and in whatever order: one lease for each job and for each worker, and no reference
-- from a row to nothing or to another tenant.
pub mod Rows
pub mod Keeps
pub mod Deletion
pub mod Each
pub mod History
pub mod Statements
use aethergrid.Base.{ℕ, ◌≡◌, ◌≢◌, Bool, true, List, [], ◌∷◌, Option, none, some, All}
use aethergrid.Domain.Job.{Job}
use aethergrid.Domain.Node.{Node}
use aethergrid.Domain.Lease.{Lease}
use aethergrid.Domain.Event.{Event}
use aethergrid.Store.{Db, WorkerRow, references}
use aethergrid.Store.Jobs.{node_is_there}

abbrev pub has_job : (id tenant_id : ℕ) → Db → Bool
has_job id tenant_id db = references (λ (j : Job). j.id) (λ j. j.tenant_id) id tenant_id db.jobs

abbrev pub has_node : (id tenant_id : ℕ) → Db → Bool
has_node id tenant_id db = references (λ (n : Node). n.id) (λ n. n.tenant_id) id tenant_id db.nodes

abbrev pub has_worker : (id tenant_id : ℕ) → Db → Bool
has_worker id tenant_id db =
    references (λ (w : WorkerRow). w.id) (λ w. w.tenant_id) id tenant_id db.workers

abbrev pub has_running_job : Option ℕ → ℕ → Db → Bool
has_running_job running_job_id tenant_id db = elim running_job_id [
  | none ↦ true
  | some id ↦ has_job id tenant_id db
]

-- Two rows of `leases` that no key stands between.
pub record Apart (l m : Lease) : Type 0 where
  pub id : m.id ≢ l.id
  pub job : m.job_id ≢ l.job_id
  pub worker : m.worker_id ≢ l.worker_id

abbrev pub Exclusive : List Lease → Type 0
Exclusive [] = Unit
Exclusive (l ∷ ls) = All (Apart l) ls × Exclusive ls

abbrev pub LeaseRefs : Db → Lease → Type 0
LeaseRefs db l =
    (has_worker l.worker_id l.tenant_id db ≡ true) × (has_job l.job_id l.tenant_id db ≡ true)

abbrev pub WorkerRefs : Db → WorkerRow → Type 0
WorkerRefs db w =
    (has_node w.node_id w.tenant_id db ≡ true)
    × (has_running_job w.running_job_id w.tenant_id db ≡ true)

pub record IsConsistent (db : Db) : Type 0 where
  pub exclusive : Exclusive db.leases
  pub lease_refs : All (LeaseRefs db) db.leases
  pub worker_refs : All (WorkerRefs db) db.workers
  pub job_refs : All (λ j. node_is_there j db ≡ true) db.jobs
  pub event_refs : All (λ (e : Event). has_job e.aggregate_id e.tenant_id db ≡ true) db.events
