-- ===== src/Service/Leases.antt =====
-- acquire_lease_service.py, release_lease_service.py and renew_lease_service.py in
-- app/application/services.
pub mod Fencing
pub mod Acquisition
use aethergrid.Base.{
  ℕ, not, Bool, is_some, ◌==◌, Action, value_error, lease_tenant_mismatch, no_active_lease,
  lease_not_found, worker_not_found, job_not_found, pure, gets, or_throw, throw_if, modify, ◌>>=◌,
  ◌>>◌,
}
use aethergrid.Domain.Resources.{Duration}
use aethergrid.Domain.Job.{Job}
use aethergrid.Domain.Worker.{Worker, tenant_id}
use aethergrid.Domain.Lease
use aethergrid.Domain.Lease.{Lease}
use aethergrid.Domain.Event.{lease_acquired, lease_released}
use aethergrid.Store.{Db}
use aethergrid.Store.Jobs
use aethergrid.Store.Workers
use aethergrid.Store.Leases
use aethergrid.Store.Events
use aethergrid.Service.Env.{Env}

-- `AcquireLeaseService.execute`
unfoldable pub acquire_lease : Env → Worker → Job → Action Db Lease
acquire_lease env worker job = do
  throw_if (not (job.tenant_id == tenant_id worker)) lease_tenant_mismatch
  throw_if (is_some (← gets (Leases.get_by_job_id job.id job.tenant_id))) value_error
  let lease = Lease.create (env.fresh 0) worker.id job.id (tenant_id worker) env.now
  Leases.save lease
  Events.record_for_job (env.fresh 1) job lease_acquired env.now
  pure lease

-- `ReleaseLeaseService.execute`
unfoldable pub release_lease :
    Env → (worker_id expected_lease_id tenant_id : ℕ) → Action Db (Unit {0})
release_lease env worker_id expected_lease_id tenant_id = do
  lease ← or_throw no_active_lease (← gets (Leases.get_by_worker_id worker_id tenant_id))
  throw_if (not (lease.id == expected_lease_id)) lease_not_found
  _ ← or_throw worker_not_found (← gets (Workers.get_by_id env.names worker_id tenant_id))
  job ← or_throw job_not_found (← gets (Jobs.get_by_id lease.job_id tenant_id))
  modify (Leases.delete lease.job_id tenant_id)
  Events.record_for_job (env.fresh 0) job lease_released env.now

-- `RenewLeaseService.execute`
unfoldable pub renew_lease :
    Env → (worker_id expected_lease_id tenant_id : ℕ) → Duration → Action Db (Unit {0})
renew_lease env worker_id expected_lease_id tenant_id duration = do
  lease ← or_throw no_active_lease (← gets (Leases.get_by_worker_id worker_id tenant_id))
  throw_if (not (lease.id == expected_lease_id)) lease_not_found
  Leases.renew lease.id duration tenant_id env.now
