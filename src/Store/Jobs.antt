-- ===== src/Store/Jobs.antt =====
-- app/infrastructure/repositories/postgres_job_repository.py
use aethergrid.Base.{
  ℕ, Bool, true, not, Option, none, some, List, ◌==◌, ◌&&◌, if◌then◌else◌, any, filter, find,
  Action, ok, raise, job_tenant_conflict, foreign_key_violation,
}
use aethergrid.Domain.Job.{Job, is_queued}
use aethergrid.Domain.Node.{Node}
use aethergrid.Store.{Db, upsert, references}

-- The key `jobs_assigned_node_same_tenant`.
abbrev pub node_is_there : Job → Db → Bool
node_is_there job db = elim job.assigned_node_id [
  | none ↦ true
  | some node_id ↦ references (λ (n : Node). n.id) (λ n. n.tenant_id) node_id job.tenant_id db.nodes
]

abbrev pub in_other_tenant : Job → Job → Bool
in_other_tenant job row = row.id == job.id && not (row.tenant_id == job.tenant_id)

unfoldable pub save : Job → Action Db (Unit {0})
save job db =
    if any (in_other_tenant job) db.jobs
    then (raise job_tenant_conflict, db)
    else if not (node_is_there job db)
    then (raise foreign_key_violation, db)
    else (ok tt, record db { jobs = upsert (λ row. row.id) job db.jobs })

abbrev pub with_id : ℕ → Job → Bool
with_id job_id row = row.id == job_id

unfoldable pub get_by_id : ℕ → ℕ → Db → Option Job
get_by_id job_id tenant_id db = find (λ row. row.id == job_id && row.tenant_id == tenant_id) db.jobs

unfoldable pub get_by_id_across_tenants : ℕ → Db → Option Job
get_by_id_across_tenants job_id db = find (with_id job_id) db.jobs

unfoldable pub list_queued : ℕ → Db → List Job
unfolding is_queued
list_queued tenant_id db = filter (λ row. is_queued row && row.tenant_id == tenant_id) db.jobs

abbrev pub list_across_tenants : Db → List Job
list_across_tenants db = db.jobs
