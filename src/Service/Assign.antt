-- ===== src/Service/Assign.antt =====
-- app/application/services/assign_worker_service.py: an idle worker on the node of the job takes it.
use aethergrid.Base.{
  Bool, not, List, [], ◌∷◌, holds, is_some, ◌&&◌, if◌then◌else◌, Action, raise, value_error,
  no_available_node, worker_not_found, lease_tenant_mismatch, pure, throw, gets, throw_if, mutate,
  ◌>>=◌, ◌>>◌,
}
use aethergrid.Domain.Job.{Job}
use aethergrid.Domain.Worker
use aethergrid.Domain.Worker.{Worker}
use aethergrid.Domain.Event.{worker_assigned}
use aethergrid.Store.{Db}
use aethergrid.Store.Workers
use aethergrid.Store.Events
use aethergrid.Service.Env.{Env}
use aethergrid.Service.Leases.{acquire_lease}

-- The two `except` clauses: a worker that is gone or in another tenant is no worker.
abbrev pub as_unavailable : {A : Type 0} → Action Db A → Action Db A
as_unavailable m db =
    let (r, db') = m db in
    elim r [
      | raise worker_not_found ↦ (raise no_available_node, db')
      | raise lease_tenant_mismatch ↦ (raise no_available_node, db')
      | other ↦ (other, db')
    ]

-- The body of the loop for a worker that passes its two tests.
unfoldable pub assign_to_worker : Env → Job → Worker → Action Db Worker
assign_to_worker env job worker = do
  as_unavailable (acquire_lease env worker job)
  worker' ← mutate (Worker.accept job) worker
  Workers.save worker'
  Events.record_for_job (env.fresh 2) job worker_assigned env.now
  pure worker'

abbrev pub is_usable : Job → Worker → Bool
is_usable job worker = holds job.assigned_node_id worker.node.id && Worker.is_idle worker

unfoldable pub assign_from : Env → Job → List Worker → Action Db Worker
assign_from env job [] = throw no_available_node
assign_from env job (worker ∷ workers) =
    let rest = assign_from env job workers in
    if is_usable job worker then assign_to_worker env job worker else rest

-- `AssignWorkerService.execute`
unfoldable pub assign_worker : Env → Job → Action Db Worker
unfolding assign_from
assign_worker env job = do
  throw_if (not (is_some job.assigned_node_id)) value_error
  assign_from env job (← gets (Workers.list_across_tenants env.names))
