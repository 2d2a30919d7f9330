-- ===== src/Service/Outcome.antt =====
-- start_job_service.py and report_job_outcome_service.py in app/application/services, and
-- `persist_job_started` of job_execution_support.py: what an agent reports of the job it holds.
pub mod Fenced
use aethergrid.Base.{
  ℕ, not, Option, none, some, ℤ, ◌==◌, Action, worker_not_found, worker_job_mismatch, pure, gets,
  or_throw, throw_if, call, mutate, ◌>>=◌, ◌>>◌,
}
use aethergrid.Domain.Job.{Job}
use aethergrid.Domain.Node
use aethergrid.Domain.Worker
use aethergrid.Domain.Worker.{Worker}
use aethergrid.Domain.Event.{EventType, job_completed, job_failed, job_cancelled}
use aethergrid.Store.{Db}
use aethergrid.Store.Jobs
use aethergrid.Store.Nodes
use aethergrid.Store.Workers
use aethergrid.Store.Events
use aethergrid.Service.Env.{Env}
use aethergrid.Service.Leases.{release_lease}

-- `_get_owning_worker`, and the checks of `StartJobService.execute`, which are the same.
unfoldable pub owning_worker : Env → (worker_id job_id tenant_id : ℕ) → Action Db (Worker × Job)
owning_worker env worker_id job_id tenant_id = do
  worker ← or_throw worker_not_found (← gets (Workers.get_by_id env.names worker_id tenant_id))
  throw_if (not (worker.node.tenant_id == tenant_id)) worker_not_found
  job ← or_throw worker_job_mismatch worker.running_job
  throw_if (not (job.id == job_id)) worker_job_mismatch
  pure (worker, job)

-- `persist_job_started`
unfoldable pub persist_job_started : Worker → Action Db (Unit {0})
persist_job_started worker = elim worker.running_job [ none ↦ pure tt | some job ↦ Jobs.save job ]

-- `StartJobService.execute`
unfoldable pub start_job : Env → (worker_id job_id tenant_id : ℕ) → Action Db Worker
unfolding owning_worker persist_job_started
start_job env worker_id job_id tenant_id = do
  (worker, _) ← owning_worker env worker_id job_id tenant_id
  worker' ← mutate (Worker.start env.now) worker
  Workers.save worker'
  persist_job_started worker'
  pure worker'

-- The node gets the resources of the job back. A node that is not found is logged and skipped.
unfoldable pub release_node : Job → (tenant_id : ℕ) → Action Db (Unit {0})
release_node job tenant_id = elim job.assigned_node_id [
  | none ↦ pure tt
  | some node_id ↦ do
    found ← gets (Nodes.get_by_id node_id tenant_id)
    elim found [ none ↦ pure tt | some node ↦ Nodes.save (Node.release job.resources node) ]
]

-- `_finish`. The lease is released before anything is written.
unfoldable pub finish :
    Env → Worker → (worker_id : ℕ) → Job → EventType → (lease_id tenant_id : ℕ) → Action Db Worker
unfolding release_node
finish env worker worker_id job event_type lease_id tenant_id = do
  release_lease env worker_id lease_id tenant_id
  Workers.save worker
  release_node job tenant_id
  Jobs.save job
  Events.record_for_job (env.fresh 1) job event_type env.now
  pure worker

-- What `complete`, `fail` and `cancel` share: the method of the worker and the event.
unfoldable pub report :
    Env
    → Action Worker Job
    → EventType
    → (worker_id job_id tenant_id lease_id : ℕ) → Action Db Worker
unfolding owning_worker finish
report env outcome event_type worker_id job_id tenant_id lease_id = do
  (worker, _) ← owning_worker env worker_id job_id tenant_id
  (worker', job') ← call outcome worker
  finish env worker' worker_id job' event_type lease_id tenant_id

module _ (env : Env) (worker_id job_id tenant_id lease_id : ℕ) (exit_code : Option ℤ) where
  unfoldable pub complete : Action Db Worker
  unfolding report
  complete =
      report env (Worker.complete exit_code env.now) job_completed worker_id job_id tenant_id
        lease_id

  unfoldable pub fail : Action Db Worker
  unfolding report
  fail = report env (Worker.fail exit_code env.now) job_failed worker_id job_id tenant_id lease_id

  unfoldable pub cancel : Action Db Worker
  unfolding report
  cancel =
      report env (Worker.cancel_job exit_code env.now) job_cancelled worker_id job_id tenant_id
        lease_id
