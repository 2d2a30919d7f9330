-- ===== src/Routes/Jobs.antt =====
-- app/presentation/routers/jobs.py, with get_job_service.py. The lists of jobs and of events are
-- left out.
pub mod Answers
use aethergrid.Base.{
  ℕ, ℤ, Option, none, some, List, String, Action, Error, Result, ok, raise, gets, or_throw, ◌>>=◌,
  job_not_found,
}
use aethergrid.Domain.Resources.{Resources, Time}
use aethergrid.Domain.Job.{Job, JobStatus}
use aethergrid.Domain.Event.{Event}
use aethergrid.Store.{Db}
use aethergrid.Store.Jobs
use aethergrid.Store.Events
use aethergrid.Service.Env.{Env}
use aethergrid.Service.Jobs.{create_job, cancel_job, retry_job}
use aethergrid.Access.ApiKey.{ApiKey, authorize_job_creation}
use aethergrid.Routes.{Response, answered, Route, refuse, attempt, no_handler, unguarded}

pub record GetJobResponse : Type 0 where
  pub id : ℕ
  pub status : JobStatus
  pub resources : Resources
  pub exit_code : Option ℤ
  pub submitted_at : Time
  pub started_at : Option Time
  pub completed_at : Option Time

-- `GetJobResponse(…)`
abbrev pub get_job_response : Job → GetJobResponse
get_job_response job = record {
  id = job.id;
  status = job.status;
  resources = job.resources;
  exit_code = job.exit_code;
  submitted_at = job.submitted_at;
  started_at = job.started_at;
  completed_at = job.completed_at;
}

-- `GetJobService.execute`
unfoldable pub get_job : (job_id tenant_id : ℕ) → Action Db Job
get_job job_id tenant_id = do
  found ← gets (Jobs.get_by_id job_id tenant_id)
  or_throw job_not_found found

-- `POST /jobs`
unfoldable pub create_job_route :
    Env → Resources → (command : Option (List String)) → (caller : ApiKey) → Route (ℕ × JobStatus)
create_job_route env resources command caller db =
    elim (authorize_job_creation caller.scopes command) [
      | raise _ ↦ refuse 403 db
      | ok _ ↦
          attempt (create_job env resources caller.tenant_id command) no_handler
            (λ job db. (answered 201 (job.id, job.status), db)) db
    ]

-- `except JobNotFoundError`, and `except InvalidJobTransition`
abbrev pub no_job : Error → Option ℕ
no_job Error.job_not_found = some 404
no_job _ = none

abbrev pub no_cancellation : Error → Option ℕ
no_cancellation Error.invalid_job_transition = some 409
no_cancellation _ = none

-- `GET /jobs/{job_id}`
unfoldable pub get_job_route : (job_id : Option ℕ) → (caller : ApiKey) → Route GetJobResponse
unfolding get_job
get_job_route job_id caller = unguarded job_id λ id.
    attempt (get_job id caller.tenant_id) no_job λ job db. (answered 200 (get_job_response job), db)

-- `if job is None` and the answer.
unfoldable pub job_or_404 : Option Job → Route GetJobResponse
job_or_404 none db = refuse 404 db
job_or_404 (some job) db = (answered 200 (get_job_response job), db)

-- `POST /jobs/{job_id}/cancel`
unfoldable pub cancel_job_route :
    Env → (job_id : Option ℕ) → (caller : ApiKey) → Route GetJobResponse
unfolding job_or_404
cancel_job_route env job_id caller =
    unguarded job_id λ id. attempt (cancel_job env id caller.tenant_id) no_cancellation job_or_404

-- `POST /jobs/{job_id}/retry`
unfoldable pub retry_job_route : (job_id : Option ℕ) → (caller : ApiKey) → Route GetJobResponse
unfolding job_or_404
retry_job_route job_id caller =
    unguarded job_id λ id. attempt (retry_job id caller.tenant_id) no_handler job_or_404
