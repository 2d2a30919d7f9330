-- ===== src/Recovery/Invariants.antt =====
-- What every write of recover_expired_lease_service.py keeps, the service keeps, with other processes
-- between its rounds that keep it too.
use aethergrid.Base.{
  ◌⊎◌, invalid_job_transition, ℕ, suc, ◌≡◌, Bool, true, false, Option, none, some, List, [], ◌∷◌,
  if◌then◌else◌, arith, inl, inr, Action, ok, raise, pure, gets, modify, Keeps, bind-Keeps,
  pure-Keeps, gets-Keeps, when-Keeps, Bool-cases,
}
use aethergrid.Domain.Resources.{Time, Resources}
use aethergrid.Domain.Job
use aethergrid.Domain.Job.{Job, is_cancelling}
use aethergrid.Domain.Node
use aethergrid.Domain.Node.{Node}
use aethergrid.Domain.Worker
use aethergrid.Domain.Worker.{Worker}
use aethergrid.Domain.Lease.{Lease, is_expired}
use aethergrid.Domain.Event.{EventType, job_cancelled, job_reclaimed}
use aethergrid.Store.{Db}
use aethergrid.Store.Jobs
use aethergrid.Store.Nodes
use aethergrid.Store.Workers
use aethergrid.Store.Leases
use aethergrid.Store.Events.{record_for_job}
use aethergrid.Service.Env.{Env}
use aethergrid.Recovery.Reclaim.{give_back, try_reclaim, reclaim_job}
use aethergrid.Recovery.ExpiredLeases.{
  recover_worker, node_of, reclaim_of_lease, recover_deleted, recover_lease, recover_leases,
  recover_expired_leases,
}

-- The writes of the service: each keeps P.
pub record Writes (P : Db → Type 0) : Type 0 where
  pub job : (j : Job) → Keeps P (Jobs.save j)
  pub node : (n : Node) → Keeps P (Nodes.save n)
  pub worker : (w : Worker) → Keeps P (Workers.save w)
  pub event :
      (id : ℕ) (j : Job) (type : EventType) (now : Time) → Keeps P (record_for_job id j type now)

-- `Job.reclaim` raises nothing but what the caller catches.
reclaim-cases :
    (now : Time) (job : Job)
    → ((Job.reclaim now job).0 ≡ ok tt) ⊎ ((Job.reclaim now job).0 ≡ raise invalid_job_transition)
unfolding Job.reclaim
reclaim-cases now job = ground arith

module _ (P : Db → Type 0) (w : Writes P) where
  give_back-Keeps : (r : Resources) (n : Option Node) → Keeps P (give_back r n)
  unfolding give_back
  give_back-Keeps r none = pure-Keeps P tt
  give_back-Keeps r (some n) = w.node (Node.release r n)

  try_reclaim-Keeps : (now : Time) (job : Job) → Keeps P (try_reclaim now job)
  unfolding try_reclaim
  try_reclaim-Keeps now job = elim (reclaim-cases now job) [
    | inl e ↦
        rw (try_reclaim, e) (bind-Keeps P _ _ (w.job (Job.reclaim now job).1) λ _. pure-Keeps P _)
    | inr e ↦ rw (try_reclaim, e) (pure-Keeps P _)
  ]

  reclaim_job-Keeps :
      (now : Time) (job : Job) (n : Option Node) → Keeps P (reclaim_job now job n true)
  unfolding reclaim_job
  reclaim_job-Keeps now job n =
      bind-Keeps P _ _ (pure-Keeps P tt)
        λ _. bind-Keeps P _ _ (give_back-Keeps job.resources n) λ _. try_reclaim-Keeps now job

  reclaim_of_lease-Keeps :
      (env : Env) (l : Lease) (job : Job) → Keeps P (reclaim_of_lease env l job)
  unfolding reclaim_of_lease
  reclaim_of_lease-Keeps env l job =
      bind-Keeps P (gets (node_of job l.tenant_id)) _ (gets-Keeps P _) λ node.
        bind-Keeps P _ _ (reclaim_job-Keeps env.now job node) λ (reclaimed, job').
          when-Keeps P reclaimed _ (
            w.event (env.fresh 0) job' (if is_cancelling job then job_cancelled else job_reclaimed)
              env.now)

  recover_worker-Keeps : (o : Option Worker) → Keeps P (recover_worker o)
  unfolding recover_worker
  recover_worker-Keeps none = pure-Keeps P tt
  recover_worker-Keeps (some worker) = w.worker (Worker.recover worker)

  reclaim_found-Keeps :
      (env : Env) (l : Lease) (o : Option Job)
      → Keeps P (elim o as (λ _. Action Db (Unit {0})) [
        | none ↦ pure tt
        | some job ↦ reclaim_of_lease env l job
      ])
  reclaim_found-Keeps env l none = pure-Keeps P tt
  reclaim_found-Keeps env l (some job) = reclaim_of_lease-Keeps env l job

  pub recover_deleted-Keeps : (env : Env) (l : Lease) → Keeps P (recover_deleted env l)
  unfolding recover_deleted
  recover_deleted-Keeps env l =
      bind-Keeps P (gets (Workers.get_by_id env.names l.worker_id l.tenant_id)) _ (gets-Keeps P _)
        λ worker.
          bind-Keeps P (gets (Jobs.get_by_id l.job_id l.tenant_id)) _ (gets-Keeps P _)
            λ job. bind-Keeps P _ _ (recover_worker-Keeps worker) λ _. reclaim_found-Keeps env l job

  if_deleted-Keeps :
      (env : Env) (l : Lease) (deleted : Bool)
      → Keeps P (if deleted then recover_deleted env l else pure tt)
  if_deleted-Keeps env l true = recover_deleted-Keeps env l
  if_deleted-Keeps env l false = pure-Keeps P tt

  recover_lease-Keeps :
      (env : Env) (l : Lease)
      → ((job t : ℕ) → Keeps P (Leases.delete_if_expired job t env.now))
      → Keeps P (recover_lease env l)
  unfolding recover_lease
  recover_lease-Keeps env l deletes = record {
    keeps = λ s p. elim (Bool-cases (is_expired env.now l)) [
      | inr e ↦ rw (recover_lease, e) p
      | inl e ↦
          rw (recover_lease, e)
            ((bind-Keeps P (Leases.delete_if_expired l.job_id l.tenant_id env.now) _
                (deletes l.job_id l.tenant_id) (if_deleted-Keeps env l)).keeps
              s p)
    ];
  }

  pub recover_leases-Keeps :
      (envs : ℕ → Env) (others : ℕ → Db → Db) (ls : List Lease)
      → ((k job t : ℕ) → Keeps P (Leases.delete_if_expired job t (envs k).now))
      → ((k : ℕ) (db : Db) → P db → P (others k db))
      → Keeps P (recover_leases envs others ls)
  unfolding recover_leases
  recover_leases-Keeps envs others [] deletes kept = pure-Keeps P tt
  recover_leases-Keeps envs others (l ∷ ls) deletes kept =
      bind-Keeps P (modify (others 0)) _ (record { keeps = kept 0 })
        λ _. bind-Keeps P _ _ (recover_lease-Keeps (envs 0) l (deletes 0)) λ _.
          recover_leases-Keeps (λ k. envs (suc k)) (λ k. others (suc k)) ls (λ k. deletes (suc k))
            (λ k. kept (suc k))

  pub recover_expired_leases-Keeps :
      (envs : ℕ → Env) (others : ℕ → Db → Db)
      → ((k job t : ℕ) → Keeps P (Leases.delete_if_expired job t (envs k).now))
      → ((k : ℕ) (db : Db) → P db → P (others k db))
      → Keeps P (recover_expired_leases envs others)
  unfolding recover_expired_leases
  recover_expired_leases-Keeps envs others deletes kept =
      bind-Keeps P (gets Leases.list_across_tenants) _ (gets-Keeps P _)
        λ ls. recover_leases-Keeps envs others ls deletes kept
