-- ===== src/Store/Leases.antt =====
-- app/infrastructure/repositories/postgres_lease_repository.py
use aethergrid.Base.{
  ℕ, ◌+◌, Bool, not, Option, List, ltb, ◌==◌, ◌&&◌, ◌||◌, if◌then◌else◌, any, filter, find, map,
  Action, ok, raise, lease_not_found, worker_not_found, unique_violation, foreign_key_violation,
}
use aethergrid.Domain.Resources.{Time, Duration}
use aethergrid.Domain.Job.{Job}
use aethergrid.Domain.Lease.{Lease}
use aethergrid.Store.{Db, WorkerRow, upsert, references}

-- The unique keys on `worker_id` and `job_id`, against every other row.
abbrev pub clashes : Lease → Lease → Bool
clashes lease row =
    not (row.id == lease.id) && (row.worker_id == lease.worker_id || row.job_id == lease.job_id)

-- The unique keys are checked as the row goes in, the references when the statement ends. Only a
-- missing worker has an exception of its own.
unfoldable pub save : Lease → Action Db (Unit {0})
save lease db =
    if any (clashes lease) db.leases
    then (raise unique_violation, db)
    else if not (
        references (λ (w : WorkerRow). w.id) (λ w. w.tenant_id) lease.worker_id lease.tenant_id
          db.workers)
    then (raise worker_not_found, db)
    else if not
        (references (λ (j : Job). j.id) (λ j. j.tenant_id) lease.job_id lease.tenant_id db.jobs)
    then (raise foreign_key_violation, db)
    else (ok tt, record db { leases = upsert (λ row. row.id) lease db.leases })

abbrev pub is_lease : ℕ → ℕ → Lease → Bool
is_lease lease_id tenant_id row = row.id == lease_id && row.tenant_id == tenant_id

-- An UPDATE, so that a lease which is gone is not made anew.
unfoldable pub renew : ℕ → Duration → ℕ → Time → Action Db (Unit {0})
renew lease_id duration tenant_id now db =
    if any (is_lease lease_id tenant_id) db.leases
    then (
      ok tt,
      record db {
        leases =
            map
              (λ row.
                if is_lease lease_id tenant_id row
                then record row { expires_at = now + duration }
                else row)
              db.leases;
      },
    )
    else (raise lease_not_found, db)

abbrev pub of_job : ℕ → ℕ → Lease → Bool
of_job job_id tenant_id row = row.job_id == job_id && row.tenant_id == tenant_id

unfoldable pub get_by_job_id : ℕ → ℕ → Db → Option Lease
get_by_job_id job_id tenant_id db = find (of_job job_id tenant_id) db.leases

unfoldable pub get_by_worker_id : ℕ → ℕ → Db → Option Lease
get_by_worker_id worker_id tenant_id db =
    find (λ row. row.worker_id == worker_id && row.tenant_id == tenant_id) db.leases

abbrev pub list_across_tenants : Db → List Lease
list_across_tenants db = db.leases

unfoldable pub delete : ℕ → ℕ → Db → Db
delete job_id tenant_id db = record db {
  leases = filter (λ row. not (of_job job_id tenant_id row)) db.leases;
}

-- The WHERE clause of `delete_if_expired`: the comparison is strict.
abbrev pub expired_of_job : ℕ → ℕ → Time → Lease → Bool
expired_of_job job_id tenant_id now row = of_job job_id tenant_id row && ltb row.expires_at now

unfoldable pub delete_if_expired : ℕ → ℕ → Time → Action Db Bool
delete_if_expired job_id tenant_id now db = (
  ok (any (expired_of_job job_id tenant_id now) db.leases),
  record db { leases = filter (λ row. not (expired_of_job job_id tenant_id now row)) db.leases },
)
