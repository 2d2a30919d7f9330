-- ===== src/Recovery/ExpiredLeases.antt =====
-- app/application/reconciliation/recover_expired_lease_service.py
use aethergrid.Base.{
  ℕ, suc, true, not, Option, none, some, List, [], ◌∷◌, if◌then◌else◌, Action, pure, gets, modify,
  when, ◌>>=◌, ◌>>◌,
}
use aethergrid.Domain.Job.{Job, is_cancelling}
use aethergrid.Domain.Node.{Node}
use aethergrid.Domain.Worker
use aethergrid.Domain.Worker.{Worker}
use aethergrid.Domain.Lease.{Lease, is_expired}
use aethergrid.Domain.Event.{job_cancelled, job_reclaimed}
use aethergrid.Store.{Db}
use aethergrid.Store.Jobs
use aethergrid.Store.Nodes
use aethergrid.Store.Workers
use aethergrid.Store.Leases
use aethergrid.Store.Events
use aethergrid.Service.Env.{Env}
use aethergrid.Recovery.Reclaim.{reclaim_job}

-- `worker.recover()` and its save, if the worker is there.
unfoldable pub recover_worker : Option Worker → Action Db (Unit {0})
recover_worker none = pure tt
recover_worker (some worker) = Workers.save (Worker.recover worker)

abbrev pub node_of : Job → (tenant_id : ℕ) → Db → Option Node
node_of job tenant_id db = elim job.assigned_node_id [
  | none ↦ none
  | some node_id ↦ Nodes.get_by_id node_id tenant_id db
]

-- From the job of a lease that was deleted to the event.
unfoldable pub reclaim_of_lease : Env → Lease → Job → Action Db (Unit {0})
reclaim_of_lease env lease job = do
  node ← gets (node_of job lease.tenant_id)
  (reclaimed, job') ← reclaim_job env.now job node true
  when reclaimed (
      Events.record_for_job (env.fresh 0) job'
        (if is_cancelling job then job_cancelled else job_reclaimed) env.now)

-- What follows once the lease has been deleted.
unfoldable pub recover_deleted : Env → Lease → Action Db (Unit {0})
unfolding recover_worker reclaim_of_lease
recover_deleted env lease = do
  worker ← gets (Workers.get_by_id env.names lease.worker_id lease.tenant_id)
  job ← gets (Jobs.get_by_id lease.job_id lease.tenant_id)
  recover_worker worker
  elim job [ none ↦ pure tt | some job ↦ reclaim_of_lease env lease job ]

-- The body of the loop, for one lease of the snapshot.
unfoldable pub recover_lease : Env → Lease → Action Db (Unit {0})
unfolding recover_deleted is_expired
recover_lease env lease db =
    if not (is_expired env.now lease)
    then pure tt db
    else (do
      deleted ← Leases.delete_if_expired lease.job_id lease.tenant_id env.now
      if deleted then recover_deleted env lease else pure tt)
        db

-- The loop. Between two rounds other processes may commit anything: `others k` is what they do before
-- round k.
unfoldable pub recover_leases :
    (envs : ℕ → Env) → (others : ℕ → Db → Db) → List Lease → Action Db (Unit {0})
recover_leases envs others [] = pure tt
recover_leases envs others (lease ∷ leases) = do
  modify (others 0)
  recover_lease (envs 0) lease
  recover_leases (λ k. envs (suc k)) (λ k. others (suc k)) leases

-- `RecoverExpiredLeaseService.execute`
unfoldable pub recover_expired_leases :
    (envs : ℕ → Env) → (others : ℕ → Db → Db) → Action Db (Unit {0})
unfolding recover_leases
recover_expired_leases envs others = do
  leases ← gets Leases.list_across_tenants
  recover_leases envs others leases
