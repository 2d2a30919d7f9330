-- ===== src/Store/Consistent/Deletion.antt =====
-- `DELETE FROM nodes` and `DELETE FROM workers` with their ON DELETE actions, and the other statements that change many rows.
use aethergrid.Base.{
  ℕ, ◌≡◌, ◌≢◌, refl, Bool, true, false, not, Option, none, some, List, [], ◌∷◌, ◌==◌, ◌&&◌, arith,
  All, All-map, All-and, All-filter, All-filter_passes, any, filter, map, holds, Bool-cases,
  Option-cases, inl, inr,
}
use aethergrid.Domain.Job.{Job}
use aethergrid.Domain.Node.{Node}
use aethergrid.Domain.Lease.{Lease}
use aethergrid.Domain.Event.{Event}
use aethergrid.Store.{Db, WorkerRow, references}
use aethergrid.Store.Jobs.{node_is_there}
use aethergrid.Store.Workers
use aethergrid.Store.Nodes.{on_node, unassign, cascade}
use aethergrid.Store.Consistent.{IsConsistent, LeaseRefs, WorkerRefs, has_job, has_node}
use aethergrid.Store.Consistent.Rows.{references-filter, references-map, filter-Exclusive}

module _ {A : Type 0} (key tenant : A → ℕ) where
  -- A reference to another row than the one that is deleted.
  references_other :
      (id t deleted : ℕ) (rows : List A)
      → id ≢ deleted
      → references key tenant id t rows ≡ true
      → references key tenant id t (filter (λ r. not (key r == deleted)) rows) ≡ true
  references_other id t deleted [] ne h = h
  references_other id t deleted (r ∷ rows) ne h =
      ground (arith, references_other id t deleted rows ne)

pub map-All {κ} :
    {A B : Type 0} (P : B → Type κ) (f : A → B) (xs : List A)
    → All (λ x. P (f x)) xs
    → All P (map f xs)
map-All P f [] h = tt
map-All P f (x ∷ xs) h = (h.0, map-All P f xs h.1)

abbrev has_assigned_node : Option ℕ → ℕ → Db → Bool
has_assigned_node node t db = elim node [ none ↦ true | some id ↦ has_node id t db ]

module _ (node_id : ℕ) (db : Db) where
  module _ (c : IsConsistent db) where
    cascade_job : (id t : ℕ) → has_job id t db ≡ true → has_job id t (cascade node_id db) ≡ true
    cascade_job id t h =
        rw
          (references-map (λ (j : Job). j.id) (λ j. j.tenant_id) id t (unassign node_id) db.jobs
            (λ j. ground arith))
          h

    node_stays :
        (node : Option ℕ) (t : ℕ)
        → holds node node_id ≡ false
        → has_assigned_node node t db ≡ true
        → has_assigned_node node t (cascade node_id db) ≡ true
    node_stays none t other h = refl
    node_stays (some id) t other h =
        references_other (λ (n : Node). n.id) (λ n. n.tenant_id) id t node_id db.nodes
          (λ same. ground arith) h

    unassign-node_is_there :
        (j : Job)
        → node_is_there j db ≡ true
        → node_is_there (unassign node_id j) (cascade node_id db) ≡ true
    unassign-node_is_there j h = elim (Bool-cases (holds j.assigned_node_id node_id)) [
      | inl on ↦ rw on refl
      | inr other ↦ rw other (node_stays j.assigned_node_id j.tenant_id other h)
    ]

    cascade_job_refs :
        All (λ j. node_is_there j (cascade node_id db) ≡ true) (cascade node_id db).jobs
    cascade_job_refs =
        map-All (λ j. node_is_there j (cascade node_id db) ≡ true) (unassign node_id) db.jobs
          (All-map (λ j. node_is_there j db ≡ true)
            (λ j. node_is_there (unassign node_id j) (cascade node_id db) ≡ true) db.jobs
            unassign-node_is_there c.job_refs)

    cascade-LeaseRefs :
        (l : Lease)
        → LeaseRefs db l
        → any (λ row. on_node node_id row && row.id == l.worker_id) db.workers ≡ false
        → LeaseRefs (cascade node_id db) l
    cascade-LeaseRefs l h e = (
      references-filter (λ (w : WorkerRow). w.id) (λ w. w.tenant_id) l.worker_id l.tenant_id
          (on_node node_id) db.workers e h.0,
      cascade_job l.job_id l.tenant_id h.1,
    )

    cascade-WorkerRefs :
        (w : WorkerRow)
        → WorkerRefs db w
        → not (on_node node_id w) ≡ true
        → WorkerRefs (cascade node_id db) w
    cascade-WorkerRefs w h e = (
      references_other (λ (n : Node). n.id) (λ n. n.tenant_id) w.node_id w.tenant_id node_id
          db.nodes (λ same. ground arith) h.0,
      elim (Option-cases w.running_job_id) [
        | inl none_there ↦ rw none_there refl
        | inr (id, there) ↦ rw there (cascade_job id w.tenant_id (rw there at h.1))
      ],
    )

  pub cascade-IsConsistent : IsConsistent db → IsConsistent (cascade node_id db)
  cascade-IsConsistent c =
      let gone : Lease → Bool =
        λ l. any (λ row. on_node node_id row && row.id == l.worker_id) db.workers in
      record {
        exclusive = filter-Exclusive (λ l. not (gone l)) db.leases c.exclusive;
        lease_refs =
            All-map (λ l. LeaseRefs db l × (not (gone l) ≡ true)) (LeaseRefs (cascade node_id db)) _
              (λ l (refs, stays). cascade-LeaseRefs c l refs (ground arith))
              (All-and (LeaseRefs db) _ _
                (All-filter (LeaseRefs db) (λ l. not (gone l)) db.leases c.lease_refs)
                (All-filter_passes (λ l. not (gone l)) db.leases));
        worker_refs =
            All-map (λ w. WorkerRefs db w × (not (on_node node_id w) ≡ true))
              (WorkerRefs (cascade node_id db)) _
              (λ w (refs, stays). cascade-WorkerRefs c w refs stays)
              (All-and (WorkerRefs db) _ _
                (All-filter (WorkerRefs db) (λ w. not (on_node node_id w)) db.workers c.worker_refs)
                (All-filter_passes (λ w. not (on_node node_id w)) db.workers));
        job_refs = cascade_job_refs c;
        event_refs =
            All-map (λ (e : Event). has_job e.aggregate_id e.tenant_id db ≡ true)
              (λ (e : Event). has_job e.aggregate_id e.tenant_id (cascade node_id db) ≡ true)
              db.events (λ e h. cascade_job c e.aggregate_id e.tenant_id h) c.event_refs;
      }

module _ {A : Type 0} (key tenant : A → ℕ) (deleted of_tenant : ℕ) where
  -- A reference to another row than the one that is deleted in a tenant.
  references-filter_other :
      (id t : ℕ) (rows : List A)
      → (id == deleted && t == of_tenant) ≡ false
      → references key tenant id t rows ≡ true
      → references key tenant id t
          (filter (λ r. not (key r == deleted && tenant r == of_tenant)) rows)
        ≡ true
  references-filter_other id t [] other h = h
  references-filter_other id t (r ∷ rows) other h =
      ground (arith, references-filter_other id t rows other)

module _ (worker_id tenant_id : ℕ) (db : Db) where
  pub delete_worker-IsConsistent :
      IsConsistent db → IsConsistent (Workers.delete worker_id tenant_id db)
  unfolding Workers.delete
  delete_worker-IsConsistent c =
      let gone : Lease → Bool = λ l. l.worker_id == worker_id && l.tenant_id == tenant_id in
      record {
        exclusive = filter-Exclusive (λ l. not (gone l)) db.leases c.exclusive;
        lease_refs =
            All-map (λ l. LeaseRefs db l × (not (gone l) ≡ true))
              (LeaseRefs (Workers.cascade worker_id tenant_id db)) _
              (λ l (refs, stays). (
                references-filter_other (λ (w : WorkerRow). w.id) (λ w. w.tenant_id) worker_id
                    tenant_id l.worker_id l.tenant_id db.workers (ground arith) refs.0,
                refs.1,
              ))
              (All-and (LeaseRefs db) _ _
                (All-filter (LeaseRefs db) (λ l. not (gone l)) db.leases c.lease_refs)
                (All-filter_passes (λ l. not (gone l)) db.leases));
        worker_refs =
            All-filter (WorkerRefs db)
              (λ (w : WorkerRow). not (w.id == worker_id && w.tenant_id == tenant_id)) db.workers
              c.worker_refs;
        job_refs = c.job_refs;
        event_refs = c.event_refs;
      }
