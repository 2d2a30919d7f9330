-- ===== src/Routes/Workers.antt =====
-- app/presentation/routers/workers.py, with the services that it calls for reads: get_node_service.py,
-- get_worker_service.py and get_lease_for_worker_service.py. The list of the workers is left out.
pub mod Answers
use aethergrid.Base.{
  ℕ, ℤ, Bool, not, Option, none, some, List, String, ◌==◌, if◌then◌else◌, map, filter, Action,
  Error, Result, ok, raise, gets, or_throw, ◌>>=◌, ◌>>◌, worker_not_found, node_not_found,
  worker_job_mismatch, no_active_lease, lease_not_found,
}
use aethergrid.Domain.Resources.{Time, Duration}
use aethergrid.Domain.Job.{Job, JobStatus}
use aethergrid.Domain.Node.{Node}
use aethergrid.Domain.Worker.{Worker, WorkerStatus, WorkerManagement}
use aethergrid.Domain.Lease.{Lease, default_lease_duration}
use aethergrid.Store.{Db}
use aethergrid.Store.Nodes
use aethergrid.Store.Workers
use aethergrid.Store.Leases
use aethergrid.Service.Env.{Env}
use aethergrid.Service.Leases.{renew_lease}
use aethergrid.Service.Workers.{create_worker, register_worker, worker_heartbeat}
use aethergrid.Service.Outcome
use aethergrid.Service.Outcome.{start_job}
use aethergrid.Access.ApiKey.{ApiKey}
use aethergrid.Routes.{Response, answered, Route, refuse, attempt, no_handler, parsed, unguarded}

-- `GetNodeService.execute`
unfoldable pub get_node : (node_id tenant_id : ℕ) → Action Db Node
get_node node_id tenant_id = do
  found ← gets (Nodes.get_by_id node_id tenant_id)
  or_throw node_not_found found

-- `GetWorkerService.execute`
unfoldable pub get_worker : Env → (worker_id tenant_id : ℕ) → Db → Option Worker
get_worker env worker_id tenant_id db = elim (Workers.get_by_id env.names worker_id tenant_id db) [
  | none ↦ none
  | some worker ↦ if worker.node.tenant_id == tenant_id then some worker else none
]

pub record RunningJobResponse : Type 0 where
  pub id : ℕ
  pub status : JobStatus
  pub command : Option (List String)
  pub execution_timeout : Duration
  pub lease_id : Option ℕ
  pub lease_acquired_at : Option Time
  pub lease_expires_at : Option Time

pub record GetWorkerResponse : Type 0 where
  pub id : ℕ
  pub status : WorkerStatus
  pub node_id : ℕ
  pub last_seen_at : Time
  pub running_job : Option RunningJobResponse

abbrev pub over : {A B : Type 0} → (A → B) → Option A → Option B
over f none = none
over f (some a) = some (f a)

-- `_build_worker_response`
unfoldable pub build_worker_response : Worker → Option Lease → GetWorkerResponse
build_worker_response worker lease = record {
  id = worker.id;
  status = worker.status;
  node_id = worker.node.id;
  last_seen_at = worker.last_seen_at;
  running_job =
      over
        (λ (job : Job). record {
          id = job.id;
          status = job.status;
          command = job.command;
          execution_timeout = job.execution_timeout;
          lease_id = over (λ (l : Lease). l.id) lease;
          lease_acquired_at = over (λ (l : Lease). l.acquired_at) lease;
          lease_expires_at = over (λ (l : Lease). l.expires_at) lease;
        })
        worker.running_job;
}

-- The end of the handlers that look the lease up where the worker has a job.
unfoldable pub with_lease : (worker_id tenant_id : ℕ) → Worker → Route GetWorkerResponse
unfolding build_worker_response
with_lease worker_id tenant_id worker db =
    let lease : Option Lease = elim worker.running_job [
      | none ↦ none
      | some _ ↦ Leases.get_by_worker_id worker_id tenant_id db
    ] in
    (answered 200 (build_worker_response worker lease), db)

-- `except NodeNotFoundError`
abbrev pub no_node : Error → Option ℕ
no_node Error.node_not_found = some 404
no_node _ = none

-- `POST /workers`. `node_id` is the identifier of the body, which a malformed text has none.
unfoldable pub create_worker_route :
    Env → (node_id : Option ℕ) → WorkerManagement → (caller : ApiKey) → Route (ℕ × WorkerStatus)
unfolding get_node
create_worker_route env node_id managed_by caller = unguarded node_id λ id.
    attempt (get_node id caller.tenant_id) no_node λ node.
      attempt (create_worker env node managed_by) no_handler λ worker.
        attempt (register_worker env worker) no_handler
          λ registered db. (answered 201 (registered.id, registered.status), db)

-- `GET /workers/{worker_id}`
unfoldable pub get_worker_route :
    Env → (worker_id : Option ℕ) → (caller : ApiKey) → Route GetWorkerResponse
unfolding get_worker with_lease
get_worker_route env worker_id caller = parsed worker_id λ id db.
    elim (get_worker env id caller.tenant_id db) [
      | none ↦ refuse 404 db
      | some worker ↦ with_lease id caller.tenant_id worker db
    ]

-- The `except` clauses of `start_job`, and those of the reports.
abbrev pub no_start : Error → Option ℕ
no_start Error.worker_not_found = some 404
no_start Error.worker_job_mismatch = some 409
no_start _ = none

abbrev pub no_report : Error → Option ℕ
no_report Error.worker_not_found = some 404
no_report Error.worker_job_mismatch = some 409
no_report Error.no_active_lease = some 409
no_report Error.lease_not_found = some 409
no_report _ = none

-- `POST /workers/{worker_id}/jobs/{job_id}/start`
unfoldable pub start_job_route :
    Env → (worker_id job_id : Option ℕ) → (caller : ApiKey) → Route GetWorkerResponse
unfolding with_lease
start_job_route env worker_id job_id caller = parsed worker_id λ w.
    parsed job_id
      λ j. attempt (start_job env w j caller.tenant_id) no_start (with_lease w caller.tenant_id)

-- What the handlers of the three reports share.
unfoldable pub report_route :
    (service : (worker_id job_id tenant_id lease_id : ℕ) (exit_code : Option ℤ) → Action Db Worker)
    → (worker_id job_id : Option ℕ) → (lease_id : ℕ) → (exit_code : Option ℤ) → (caller : ApiKey)
    → Route GetWorkerResponse
unfolding build_worker_response
report_route service worker_id job_id lease_id exit_code caller = parsed worker_id λ w.
    parsed job_id λ j.
      attempt (service w j caller.tenant_id lease_id exit_code) no_report
        λ worker db. (answered 200 (build_worker_response worker none), db)

-- `POST /workers/{worker_id}/jobs/{job_id}/complete`, `…/fail` and `…/cancel`.
unfoldable pub complete_job :
    Env
    → (worker_id job_id : Option ℕ) → (lease_id : ℕ) → (exit_code : Option ℤ) → (caller : ApiKey)
    → Route GetWorkerResponse
complete_job env = report_route (Outcome.complete env)

unfoldable pub fail_job :
    Env
    → (worker_id job_id : Option ℕ) → (lease_id : ℕ) → (exit_code : Option ℤ) → (caller : ApiKey)
    → Route GetWorkerResponse
fail_job env = report_route (Outcome.fail env)

unfoldable pub confirm_job_cancellation :
    Env
    → (worker_id job_id : Option ℕ) → (lease_id : ℕ) → (exit_code : Option ℤ) → (caller : ApiKey)
    → Route GetWorkerResponse
confirm_job_cancellation env = report_route (Outcome.cancel env)

abbrev pub no_renewal : Error → Option ℕ
no_renewal Error.no_active_lease = some 409
no_renewal Error.lease_not_found = some 409
no_renewal _ = none

-- `POST /workers/{worker_id}/lease/renew`: the worker of the answer is the one read first.
unfoldable pub renew_lease_route :
    Env → (worker_id : Option ℕ) → (lease_id : ℕ) → (caller : ApiKey) → Route GetWorkerResponse
unfolding with_lease get_worker
renew_lease_route env worker_id lease_id caller = parsed worker_id λ id db.
    elim (get_worker env id caller.tenant_id db) [
      | none ↦ refuse 404 db
      | some worker ↦
          attempt (renew_lease env id lease_id caller.tenant_id default_lease_duration) no_renewal
            (λ _. with_lease id caller.tenant_id worker) db
    ]

abbrev pub no_worker : Error → Option ℕ
no_worker Error.worker_not_found = some 404
no_worker _ = none

-- `POST /workers/{worker_id}/heartbeat`
unfoldable pub heartbeat_worker :
    Env → (worker_id : Option ℕ) → (caller : ApiKey) → Route (ℕ × WorkerStatus)
heartbeat_worker env worker_id caller = parsed worker_id λ id.
    attempt (worker_heartbeat env id caller.tenant_id) no_worker
      λ worker db. (answered 200 (worker.id, worker.status), db)
