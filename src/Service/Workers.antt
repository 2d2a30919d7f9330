-- ===== src/Service/Workers.antt =====
-- create_worker_service.py, register_worker_service.py, worker_heartbeat_service.py and
-- mark_dead_workers_service.py in app/application/services.
use aethergrid.Base.{
  ℕ, false, not, none, some, List, [], ◌∷◌, Action, runtime_error, worker_not_found, pure, gets,
  or_throw, throw_if, when, ◌>>=◌, ◌>>◌,
}
use aethergrid.Domain.Node.{Node}
use aethergrid.Domain.Worker
use aethergrid.Domain.Worker.{Worker, WorkerManagement}
use aethergrid.Store.{Db}
use aethergrid.Store.Workers
use aethergrid.Service.Env.{Env}
use aethergrid.Recovery.Reclaim.{reclaim_job}

-- The branch of `CreateWorkerService.execute` for a node that has a worker.
unfoldable pub reclaim_worker : Env → Node → WorkerManagement → Worker → Action Db Worker
reclaim_worker env node managed_by existing = do
  elim existing.running_job [
    | none ↦ pure tt
    | some job ↦ do _ ← reclaim_job env.now job (some node) false; pure tt
  ]
  let worker = record (Worker.recover existing) { managed_by = managed_by }
  Workers.save worker
  pure worker

-- `CreateWorkerService.execute`
unfoldable pub create_worker : Env → Node → WorkerManagement → Action Db Worker
unfolding reclaim_worker
create_worker env node managed_by = do
  existing ← gets (Workers.get_by_node_id env.names node.id node.tenant_id)
  elim existing [
    | some worker ↦ reclaim_worker env node managed_by worker
    | none ↦ do
      let worker = Worker.ready (Worker.create (env.fresh 0) node managed_by env.now)
      Workers.save worker
      pure worker
  ]

-- `RegisterWorkerService.execute`
unfoldable pub register_worker : Env → Worker → Action Db Worker
register_worker env worker = do
  Workers.save (Worker.ready worker)
  or_throw runtime_error (← gets (Workers.get_by_id env.names worker.id (Worker.tenant_id worker)))

-- `WorkerHeartbeatService.execute`
unfoldable pub worker_heartbeat : Env → (worker_id tenant_id : ℕ) → Action Db Worker
worker_heartbeat env worker_id tenant_id = do
  worker ← or_throw worker_not_found (← gets (Workers.get_by_id env.names worker_id tenant_id))
  throw_if (not (Worker.belongs_to tenant_id worker)) worker_not_found
  let worker' = Worker.heartbeat env.now worker
  Workers.save worker'
  pure worker'

-- The loop of `MarkDeadWorkersService.execute`.
unfoldable pub mark_dead : Env → List Worker → Action Db (Unit {0})
mark_dead env [] = pure tt
mark_dead env (worker ∷ workers) = do
  when (not (Worker.is_alive env.now worker)) (Workers.save (Worker.go_offline worker))
  mark_dead env workers

-- `MarkDeadWorkersService.execute`
unfoldable pub mark_dead_workers : Env → Action Db (Unit {0})
unfolding mark_dead
mark_dead_workers env = do
  workers ← gets (Workers.list_across_tenants env.names)
  mark_dead env workers
