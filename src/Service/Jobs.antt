-- ===== src/Service/Jobs.antt =====
-- create_job_service.py, cancel_job_service.py and retry_job_service.py in
-- app/application/services.
pub mod Cancellation
use aethergrid.Base.{
  ℕ, not, Option, none, some, List, String, if◌then◌else◌, Action, pure, gets, mutate, ◌>>=◌, ◌>>◌,
}
use aethergrid.Domain.Resources.{Resources}
use aethergrid.Domain.Job
use aethergrid.Domain.Job.{Job}
use aethergrid.Domain.Event.{job_created}
use aethergrid.Store.{Db}
use aethergrid.Store.Jobs
use aethergrid.Store.Events
use aethergrid.Service.Env.{Env}

-- `CreateJobService.execute`
unfoldable pub create_job :
    Env → Resources → (tenant_id : ℕ) → (command : Option (List String)) → Action Db Job
create_job env resources tenant_id command = do
  job ← Job.create (env.fresh 0) resources tenant_id command env.now
  job' ← mutate Job.queue job
  Jobs.save job'
  Events.record_for_job (env.fresh 1) job' job_created env.now
  pure job'

-- The branch of `CancelJobService.execute`: a running job is asked to stop, and one that is being
-- stopped is left as it is.
abbrev pub request_or_cancel : Env → Action Job (Unit {0})
request_or_cancel env job =
    if Job.is_running job
    then Job.request_cancellation env.now job
    else if not (Job.is_cancelling job)
    then Job.cancel job
    else pure tt job

-- `CancelJobService.execute`
unfoldable pub cancel_job : Env → (job_id tenant_id : ℕ) → Action Db (Option Job)
cancel_job env job_id tenant_id = do
  found ← gets (Jobs.get_by_id job_id tenant_id)
  elim found [
    | none ↦ pure none
    | some job ↦ do job' ← mutate (request_or_cancel env) job; Jobs.save job'; pure (some job')
  ]

-- `RetryJobService.execute`
unfoldable pub retry_job : (job_id tenant_id : ℕ) → Action Db (Option Job)
retry_job job_id tenant_id = do
  found ← gets (Jobs.get_by_id job_id tenant_id)
  elim found [
    | none ↦ pure none
    | some job ↦
        if not (Job.is_failed job)
        then pure (some job)
        else if not (Job.can_retry job)
        then pure (some job)
        else do job' ← mutate Job.retry job; Jobs.save job'; pure (some job')
  ]
