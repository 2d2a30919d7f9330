-- ===== src/Execution/Loop.antt =====
-- app/application/workers/worker_execution_loop.py and worker_heartbeat_loop.py there, and
-- app/application/services/cluster_tick_service.py.
-- The renewal thread is a list of ticks, each with what other processes commit before it; the execution
-- of the command between them is what Execution/Process returns.
pub mod Stale
use aethergrid.Base.{
  ℕ, Bool, true, false, not, ◌&&◌, Option, none, some, List, [], ◌∷◌, ℤ, is_some, if◌then◌else◌,
  Action, Result, Error, ok, raise, pure, throw, gets, or_throw, throw_if, call, mutate, modify,
  ◌>>=◌, ◌>>◌, value_error, no_active_lease, lease_not_found, os_error,
}
use aethergrid.Domain.Resources.{Time}
use aethergrid.Domain.Job
use aethergrid.Domain.Job.{Job, is_running, is_cancelling}
use aethergrid.Domain.Worker
use aethergrid.Domain.Worker.{Worker, WorkerManagement, dashboard, agent}
use aethergrid.Domain.Lease.{Lease, default_lease_duration}
use aethergrid.Domain.Event.{EventType, job_completed, job_failed, job_cancelled}
use aethergrid.Domain.Scheduler.{Float}
use aethergrid.Store.{Db}
use aethergrid.Store.Jobs
use aethergrid.Store.Workers
use aethergrid.Store.Leases
use aethergrid.Store.Events
use aethergrid.Service.Env.{Env}
use aethergrid.Service.Leases.{renew_lease, release_lease}
use aethergrid.Service.Outcome.{persist_job_started, release_node}
use aethergrid.Service.Workers.{worker_heartbeat}
use aethergrid.Service.Schedule.{schedule_all}
use aethergrid.Execution.Process.{JobExecutionResult, Outcome, returned, raised, succeeded}

-- One round of `keep_lease_alive`: what other processes commit before the renewal, and between it and the
-- read of the job.
pub record Tick : Type 0 where
  pub before : Db → Db
  pub env : Env
  pub between : Db → Db

-- What the thread shares with the loop: the job, `cancel_event`, and whether `lost_lease` has an entry.
pub record Renewal : Type 0 where
  pub job : Job
  pub cancel_event : Bool
  pub lost_lease : Bool

-- `current is not None and current.is_cancelling()`
abbrev pub cancels : Option Job → Bool
cancels none = false
cancels (some current) = is_cancelling current

-- `job.request_cancellation()` and `cancel_event.set()`.
abbrev pub requested : Renewal → Result (Unit {0}) × Job → Bool × Renewal
requested r (ok _, job) = (true, record r { job = job; cancel_event = true })
requested r (raise _, job) = (false, record r { job = job })

-- The delivery of a cancellation, and whether the thread goes on: an exception ends it.
unfoldable pub deliver : Time → Option Job → Renewal → Bool × Renewal
deliver now current r =
    if not r.cancel_event && cancels current
    then if is_cancelling r.job
      then (true, record r { cancel_event = true })
      else requested r (Job.request_cancellation now r.job)
    else (true, r)

-- `except LeaseNotFoundError`. Any other exception ends the thread, and nothing learns of it.
abbrev pub is_lost : Error → Bool
is_lost Error.lease_not_found = true
is_lost _ = false

-- `keep_lease_alive`, for as many renewals as the execution of the command lasts.
unfoldable pub keep_lease_alive :
    (worker_id lease_id tenant_id : ℕ) → List Tick → Renewal → Db → Renewal × Db
unfolding deliver
keep_lease_alive w l t [] r db = (r, db)
keep_lease_alive w l t (tick ∷ ticks) r db =
    let (answer, db') = renew_lease tick.env w l t default_lease_duration (tick.before db) in
    elim answer [
      | raise x ↦ (record r { lost_lease = is_lost x }, db')
      | ok _ ↦
          let d : Db = tick.between db' in
          let (alive, r') : Bool × Renewal = deliver tick.env.now (Jobs.get_by_id r.job.id t d) r in
          elim alive [ true ↦ keep_lease_alive w l t ticks r' d | false ↦ (r', d) ]
    ]

-- The branches on the result: the transition of the worker, and the event.
abbrev pub transition : JobExecutionResult → Time → Action Worker Job
transition result now =
    if result.cancelled
    then Worker.cancel_job result.exit_code now
    else if succeeded result
    then Worker.complete result.exit_code now
    else Worker.fail result.exit_code now

abbrev pub event_of : JobExecutionResult → EventType
event_of result =
    if result.cancelled
    then job_cancelled
    else if succeeded result
    then job_completed
    else job_failed

-- The time of a request that this loop has not learned of is kept.
unfoldable pub keep_request : Option Job → Job → Job
keep_request none job = job
keep_request (some current) job =
    if is_some current.cancellation_requested_at && not (is_some job.cancellation_requested_at)
    then record job { cancellation_requested_at = current.cancellation_requested_at }
    else job

-- The part of `execute` behind `if lost_lease`. The event is recorded first; the release of the lease is
-- the fence for what follows.
unfoldable pub record_outcome :
    Env → Worker → JobExecutionResult → (lease_id tenant_id : ℕ) → Action Db (Unit {0})
unfolding keep_request
record_outcome env worker result lease_id tenant_id = do
  (worker', job) ← call (transition result env.now) worker
  Events.record_for_job (env.fresh 1) job (event_of result) env.now
  release_lease env worker.id lease_id tenant_id
  Workers.save worker'
  release_node job tenant_id
  current ← gets (Jobs.get_by_id job.id tenant_id)
  Jobs.save (keep_request current job)

-- What one iteration meets: the renewals, what others commit between the last one and the end of the
-- command, how the execution of the command ends, and the last readings.
pub record Iteration : Type 0 where
  pub ticks : List Tick
  pub settle : Db → Db
  pub outcome : Outcome
  pub env : Env

-- The end of `execute`, behind the join of the thread: an exception of the execution goes through.
unfoldable pub conclude :
    Iteration → Worker → Renewal → (lease_id tenant_id : ℕ) → Action Db (Unit {0})
unfolding record_outcome
conclude it worker r lease_id tenant_id = elim it.outcome [
  | raised _ ↦ throw os_error
  | returned result ↦ do
    throw_if r.lost_lease lease_not_found
    record_outcome it.env (record worker { running_job = some r.job }) result lease_id tenant_id
]

-- `execute` from the start of the renewal thread on.
unfoldable pub drive : Iteration → Worker → Job → (lease_id tenant_id : ℕ) → Action Db (Unit {0})
unfolding keep_lease_alive conclude
drive it worker job lease_id tenant_id db =
    let (r, db') =
      keep_lease_alive worker.id lease_id tenant_id it.ticks
        (record { job = job; cancel_event = false; lost_lease = false }) db in
    conclude it worker r lease_id tenant_id (it.settle db')

-- `if not job.is_running()`: the worker with the job started, whose row alone is written.
unfoldable pub ensure_started : Env → Worker → Job → Action Db Worker
ensure_started env worker job = elim (is_running job) [
  | true ↦ pure worker
  | false ↦ do
    worker' ← mutate (Worker.start env.now) worker
    persist_job_started worker'
    pure worker'
]

-- `execute`, for a worker that has a job.
unfoldable pub execute_job : Env → Iteration → Worker → Job → Action Db (Unit {0})
unfolding ensure_started drive
execute_job env it worker job = do
  lease ←
      or_throw no_active_lease
        (← gets (Leases.get_by_worker_id worker.id (Worker.tenant_id worker)))
  worker' ← ensure_started env worker job
  elim worker'.running_job [
    | none ↦ throw value_error
    | some job' ↦ drive it worker' job' lease.id (Worker.tenant_id worker)
  ]

-- `WorkerExecutionLoop.execute`
unfoldable pub execute : Env → Iteration → (worker_id : ℕ) → Action Db (Unit {0})
unfolding execute_job
execute env it worker_id = do
  worker ← or_throw value_error (← gets (Workers.get_by_id_across_tenants env.names worker_id))
  elim worker.running_job [ none ↦ pure tt | some job ↦ execute_job env it worker job ]

-- `WorkerHeartbeatLoop.run_once`
unfoldable pub run_once : Env → (worker_id tenant_id : ℕ) → Action Db (Unit {0})
run_once env worker_id tenant_id = worker_heartbeat env worker_id tenant_id >>= λ _. pure tt

-- `except Exception`, which logs.
abbrev pub attempt : Action Db (Unit {0}) → Db → Db
attempt m db = (m db).1

-- Whether the tick drives a worker: one with a job that no agent executes.
abbrev pub is_driven : Worker → Bool
is_driven worker =
    is_some worker.running_job && elim worker.managed_by [ agent ↦ false | dashboard ↦ true ]

-- The loop of `ClusterTickService.execute`.
unfoldable pub drive_workers : (env : Env) → (iterations : ℕ → Iteration) → List Worker → Db → Db
unfolding execute
drive_workers env its [] db = db
drive_workers env its (worker ∷ workers) db =
    drive_workers env its workers
      (if is_driven worker then attempt (execute env (its worker.id) worker.id) db else db)

module _ (F : Float) where
  -- `ClusterTickService.execute`
  unfoldable pub tick :
      (envs : ℕ → Env) → (env : Env) → (iterations : ℕ → Iteration) → Action Db (Unit {0})
  unfolding drive_workers
  tick envs env its = do
    schedule_all F envs
    workers ← gets (Workers.list_across_tenants env.names)
    modify (drive_workers env its workers)
