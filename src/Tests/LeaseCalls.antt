-- ===== src/Tests/LeaseCalls.antt =====
-- Calls on leases.
use aethergrid.Base.{◌+◌, ◌≡◌, refl, raise, lease_not_found, []}
use aethergrid.Service.Leases.{acquire_lease, release_lease, renew_lease}
use aethergrid.Service.Leases.Fencing.{
  ReleaseOutcome, RenewOutcome, release_lease-Outcome, renew_lease-Outcome,
}
use aethergrid.Service.Leases.Acquisition.{AcquireOutcome, acquire_lease-Outcome}
use aethergrid.Store.{Db}
use aethergrid.Tests.Data.{env, busy, idle_worker, scheduled_job}

release_lease-Outcome_example : ReleaseOutcome 30 40 1 busy (release_lease env 30 40 1 busy)
release_lease-Outcome_example = release_lease-Outcome env 30 40 1 busy

renew_lease-Outcome_example : RenewOutcome 30 40 1 (200 + 5) busy (renew_lease env 30 40 1 5 busy)
renew_lease-Outcome_example = renew_lease-Outcome env 30 40 1 5 busy

release_lease_run : (release_lease env 30 40 1 busy).1.leases ≡ []
unfolding release_lease aethergrid.Store.Leases.get_by_worker_id aethergrid.Store.Workers.get_by_id
    aethergrid.Store.Jobs.get_by_id aethergrid.Store.Events.record_for_job
    aethergrid.Store.Leases.delete
release_lease_run = refl

-- A caller that names another lease than the one on record is refused.
release_lease_stale : release_lease env 30 39 1 busy ≡ (raise lease_not_found, busy)
unfolding release_lease aethergrid.Store.Leases.get_by_worker_id
release_lease_stale = refl

-- The worker with no job, and the job before it is taken.
abbrev idle : Db
idle = record busy { leases = [] }

acquire_lease-Outcome_example :
    AcquireOutcome idle_worker scheduled_job idle (acquire_lease env idle_worker scheduled_job idle)
acquire_lease-Outcome_example = acquire_lease-Outcome env idle_worker scheduled_job idle
