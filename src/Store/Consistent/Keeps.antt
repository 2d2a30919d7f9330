-- ===== src/Store/Consistent/Keeps.antt =====
-- References where a statement takes nothing away.
use aethergrid.Base.{ℕ, ◌≡◌, refl, true, Option, none, some, All, All-map, Option-cases, inl, inr}
use aethergrid.Domain.Job.{Job}
use aethergrid.Domain.Lease.{Lease}
use aethergrid.Domain.Event.{Event}
use aethergrid.Store.{Db, WorkerRow}
use aethergrid.Store.Jobs.{node_is_there}
use aethergrid.Store.Consistent.{
  IsConsistent, LeaseRefs, WorkerRefs, has_job, has_node, has_worker, has_running_job,
}

-- What is there to be referenced stays there.
pub record Keeps (db db' : Db) : Type 0 where
  pub jobs : (id t : ℕ) → has_job id t db ≡ true → has_job id t db' ≡ true
  pub nodes : (id t : ℕ) → has_node id t db ≡ true → has_node id t db' ≡ true
  pub workers : (id t : ℕ) → has_worker id t db ≡ true → has_worker id t db' ≡ true

module _ (db db' : Db) (k : Keeps db db') where
  pub keeps-LeaseRefs : (l : Lease) → LeaseRefs db l → LeaseRefs db' l
  keeps-LeaseRefs l h = (k.workers _ _ h.0, k.jobs _ _ h.1)

  pub keeps-has_running_job :
      (id : Option ℕ) (t : ℕ) → has_running_job id t db ≡ true → has_running_job id t db' ≡ true
  keeps-has_running_job none t h = refl
  keeps-has_running_job (some id) t h = k.jobs id t h

  pub keeps-WorkerRefs : (w : WorkerRow) → WorkerRefs db w → WorkerRefs db' w
  keeps-WorkerRefs w h = (k.nodes _ _ h.0, keeps-has_running_job w.running_job_id w.tenant_id h.1)

  pub keeps-node_is_there : (j : Job) → node_is_there j db ≡ true → node_is_there j db' ≡ true
  keeps-node_is_there j h = elim (Option-cases j.assigned_node_id) [
    | inl e ↦ rw e refl
    | inr (id, e) ↦ rw e (k.nodes id j.tenant_id (rw e at h))
  ]

  -- The references of the rows that are there already.
  pub record Rows : Type 0 where
    pub lease_refs : All (LeaseRefs db') db.leases
    pub worker_refs : All (WorkerRefs db') db.workers
    pub job_refs : All (λ j. node_is_there j db' ≡ true) db.jobs
    pub event_refs : All (λ (e : Event). has_job e.aggregate_id e.tenant_id db' ≡ true) db.events

  pub keeps-Rows : IsConsistent db → Rows
  keeps-Rows c = record {
    lease_refs = All-map (LeaseRefs db) (LeaseRefs db') db.leases keeps-LeaseRefs c.lease_refs;
    worker_refs =
        All-map (WorkerRefs db) (WorkerRefs db') db.workers keeps-WorkerRefs c.worker_refs;
    job_refs =
        All-map (λ j. node_is_there j db ≡ true) (λ j. node_is_there j db' ≡ true) db.jobs
          keeps-node_is_there c.job_refs;
    event_refs =
        All-map (λ (e : Event). has_job e.aggregate_id e.tenant_id db ≡ true)
          (λ (e : Event). has_job e.aggregate_id e.tenant_id db' ≡ true) db.events
          (λ e h. k.jobs e.aggregate_id e.tenant_id h) c.event_refs;
  }
