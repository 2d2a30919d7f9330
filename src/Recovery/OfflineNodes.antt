-- ===== src/Recovery/OfflineNodes.antt =====
-- app/application/reconciliation/recover_offline_node_service.py
use aethergrid.Base.{
  ℕ, suc, Bool, true, false, not, none, some, List, [], ◌∷◌, ◌==◌, if◌then◌else◌, any, filter,
  Action, pure, gets, modify, when, ◌>>=◌, ◌>>◌,
}
use aethergrid.Domain.Job.{Job}
use aethergrid.Domain.Node.{Node, is_alive}
use aethergrid.Domain.Worker
use aethergrid.Domain.Worker.{Worker}
use aethergrid.Domain.Lease.{is_expired}
use aethergrid.Domain.Event.{job_reclaimed}
use aethergrid.Store.{Db}
use aethergrid.Store.Nodes
use aethergrid.Store.Workers
use aethergrid.Store.Leases
use aethergrid.Store.Events
use aethergrid.Service.Env.{Env}
use aethergrid.Recovery.Reclaim.{reclaim_job}

-- From `worker.recover()` on. The node is the one that was read with the worker.
unfoldable pub recover_holder :
    Env → Worker → Job → (lease_already_deleted : Bool) → Action Db (Unit {0})
recover_holder env worker job lease_already_deleted = do
  Workers.save (Worker.recover worker)
  (reclaimed, job') ← reclaim_job env.now job (some worker.node) lease_already_deleted
  when reclaimed (Events.record_for_job (env.fresh 0) job' job_reclaimed env.now)

-- The body of the loop for a worker of an offline node that holds a job.
unfoldable pub recover_job : Env → Worker → Job → Action Db (Unit {0})
unfolding recover_holder
recover_job env worker job = do
  lease ← gets (Leases.get_by_job_id job.id job.tenant_id)
  elim lease [
    | none ↦ recover_holder env worker job false
    | some lease ↦ if not (is_expired env.now lease) then pure tt else do
      deleted ← Leases.delete_if_expired job.id job.tenant_id env.now
      if deleted then recover_holder env worker job true else pure tt
  ]

abbrev pub is_offline : List Node → Worker → Bool
is_offline offline worker = any (λ (n : Node). n.id == worker.node.id) offline

unfoldable pub recover_on_node : Env → (offline : List Node) → Worker → Action Db (Unit {0})
unfolding recover_job
recover_on_node env offline worker =
    if not (is_offline offline worker)
    then pure tt
    else elim worker.running_job [ none ↦ pure tt | some job ↦ recover_job env worker job ]

-- The loop over the workers that were read before it.
unfoldable pub recover_workers :
    (envs : ℕ → Env)
    → (others : ℕ → Db → Db) → (offline : List Node) → List Worker
    → Action Db (Unit {0})
recover_workers envs others offline [] = pure tt
recover_workers envs others offline (worker ∷ workers) = do
  modify (others 0)
  recover_on_node (envs 0) offline worker
  recover_workers (λ k. envs (suc k)) (λ k. others (suc k)) offline workers

-- `RecoverOfflineNodeService.execute`
unfoldable pub recover_offline_nodes :
    (envs : ℕ → Env) → (others : ℕ → Db → Db) → Action Db (Unit {0})
unfolding recover_workers
recover_offline_nodes envs others = do
  offline ← gets (λ db. filter (λ n. not (is_alive (envs 0).now n)) (Nodes.list_across_tenants db))
  elim offline [
    | [] ↦ pure tt
    | n ∷ ns ↦ do
      workers ← gets (Workers.list_across_tenants (envs 0).names)
      recover_workers envs others (n ∷ ns) workers
  ]
