-- ===== src/Store/Workers.antt =====
-- app/infrastructure/repositories/postgres_worker_repository.py. A row is joined with its node and
-- its job by reads of their own, so a worker sees them as they are stored now. `_node_from_row` does
-- not pass the stored name to `Node`, which then takes a generated one: `names` is what
-- `generate_node_name()` returns, by the node's id.
use aethergrid.Base.{
  ℕ, Bool, true, not, Option, none, some, List, [], ◌∷◌, String, ◌==◌, ◌&&◌, ◌||◌, any,
  if◌then◌else◌, find, filter, Action, ok, raise, foreign_key_violation,
}
use aethergrid.Domain.Job.{Job}
use aethergrid.Domain.Node.{Node}
use aethergrid.Domain.Worker.{Worker}
use aethergrid.Domain.Lease.{Lease}
use aethergrid.Store.{Db, WorkerRow, upsert, references}
use aethergrid.Store.Jobs

abbrev pub job_id : Option Job → Option ℕ
job_id none = none
job_id (some job) = some job.id

abbrev pub to_row : Worker → WorkerRow
to_row worker = record {
  id = worker.id;
  node_id = worker.node.id;
  tenant_id = worker.node.tenant_id;
  status = worker.status;
  managed_by = worker.managed_by;
  running_job_id = job_id worker.running_job;
  last_seen_at = worker.last_seen_at;
}

-- The keys `workers_node_same_tenant` and `workers_running_job_same_tenant`.
abbrev pub parents_are_there : Worker → Db → Bool
parents_are_there worker db =
    references (λ (n : Node). n.id) (λ n. n.tenant_id) worker.node.id worker.node.tenant_id db.nodes
    && elim worker.running_job [
      | none ↦ true
      | some job ↦
          references (λ (j : Job). j.id) (λ j. j.tenant_id) job.id worker.node.tenant_id db.jobs
    ]

-- The key `leases_worker_same_tenant`, from the side of the worker: a row that a lease references
-- does not leave the tenant of the lease.
abbrev pub leaves_lease : Worker → Lease → Bool
leaves_lease worker lease =
    lease.worker_id == worker.id && not (lease.tenant_id == worker.node.tenant_id)

unfoldable pub save : Worker → Action Db (Unit {0})
save worker db =
    if not (parents_are_there worker db) || any (leaves_lease worker) db.leases
    then (raise foreign_key_violation, db)
    else (ok tt, record db { workers = upsert (λ row. row.id) (to_row worker) db.workers })

-- `running_job` of `_to_entity`.
abbrev pub load_job : Option ℕ → Db → Option Job
load_job none db = none
load_job (some id) db = find (Jobs.with_id id) db.jobs

-- `_to_entity`
unfoldable pub to_entity : (names : ℕ → String) → Db → WorkerRow → Option Worker
to_entity names db row = elim (find (λ node. node.id == row.node_id) db.nodes) [
  | none ↦ none
  | some node ↦ some (record {
    id = row.id;
    node = record node { name = names node.id };
    status = row.status;
    managed_by = row.managed_by;
    running_job = load_job row.running_job_id db;
    last_seen_at = row.last_seen_at;
  })
]

abbrev pub load : (names : ℕ → String) → Db → Option WorkerRow → Option Worker
load names db none = none
load names db (some row) = to_entity names db row

abbrev pub load_all : (names : ℕ → String) → Db → List WorkerRow → List Worker
load_all names db [] = []
load_all names db (row ∷ rows) = elim (to_entity names db row) [
  | none ↦ load_all names db rows
  | some worker ↦ worker ∷ load_all names db rows
]

unfoldable pub get_by_id : (names : ℕ → String) → ℕ → ℕ → Db → Option Worker
unfolding to_entity
get_by_id names worker_id tenant_id db =
    load names db (find (λ row. row.id == worker_id && row.tenant_id == tenant_id) db.workers)

unfoldable pub get_by_id_across_tenants : (names : ℕ → String) → ℕ → Db → Option Worker
unfolding to_entity
get_by_id_across_tenants names worker_id db =
    load names db (find (λ row. row.id == worker_id) db.workers)

unfoldable pub get_by_node_id : (names : ℕ → String) → ℕ → ℕ → Db → Option Worker
unfolding to_entity
get_by_node_id names node_id tenant_id db =
    load names db (find (λ row. row.node_id == node_id && row.tenant_id == tenant_id) db.workers)

unfoldable pub list_across_tenants : (names : ℕ → String) → Db → List Worker
unfolding to_entity
list_across_tenants names db = load_all names db db.workers

-- ON DELETE CASCADE from workers to leases.
abbrev pub cascade : ℕ → ℕ → Db → Db
cascade worker_id tenant_id db = record db {
  workers = filter (λ row. not (row.id == worker_id && row.tenant_id == tenant_id)) db.workers;
  leases =
      filter (λ lease. not (lease.worker_id == worker_id && lease.tenant_id == tenant_id))
        db.leases;
}

unfoldable pub delete : ℕ → ℕ → Db → Db
delete worker_id tenant_id db = cascade worker_id tenant_id db
