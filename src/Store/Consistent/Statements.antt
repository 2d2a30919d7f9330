-- ===== src/Store/Consistent/Statements.antt =====
-- The write statements of the repositories, in any order, from any processes.
use aethergrid.Base.{
  ◌≡◌, refl, Bool, true, false, List, [], ◌∷◌, arith, All, All-map, All-and, All-filter, any,
  filter, Option-cases, inl, inr,
}
use aethergrid.Domain.Job.{Job}
use aethergrid.Domain.Node.{Node}
use aethergrid.Domain.Worker.{Worker}
use aethergrid.Domain.Lease.{Lease}
use aethergrid.Store.{Db, WorkerRow, upsert}
use aethergrid.Store.Jobs
use aethergrid.Store.Jobs.{node_is_there}
use aethergrid.Store.Nodes
use aethergrid.Store.Workers
use aethergrid.Store.Leases
use aethergrid.Store.Consistent.{IsConsistent, LeaseRefs, WorkerRefs}
use aethergrid.Store.Consistent.Keeps.{Keeps, Rows, keeps-Rows}
use aethergrid.Store.Consistent.Rows.{
  references-upsert, references-upsert_own, All-upsert, filter-Exclusive, upsert-Exclusive,
}

pub write_job :
    (job : Job) (db : Db)
    → any (Jobs.in_other_tenant job) db.jobs ≡ false
    → node_is_there job db ≡ true
    → IsConsistent db
    → IsConsistent (record db { jobs = upsert (λ row. row.id) job db.jobs })
write_job job db own there c =
    let db' : Db = record db { jobs = upsert (λ row. row.id) job db.jobs } in
    let keeps : Keeps db db' = record {
      jobs = λ id t h. references-upsert_own (λ j. j.id) (λ j. j.tenant_id) id t job db.jobs own h;
      nodes = λ id t h. h;
      workers = λ id t h. h;
    } in
    let kept : Rows db db' keeps = keeps-Rows db db' keeps c in
    record {
      exclusive = c.exclusive;
      lease_refs = kept.lease_refs;
      worker_refs = kept.worker_refs;
      job_refs =
          All-upsert (λ j. node_is_there j db ≡ true) (λ row. row.id) job db.jobs c.job_refs there;
      event_refs = kept.event_refs;
    }

pub write_node :
    (node : Node) (db : Db)
    → any (Nodes.in_other_tenant node) db.nodes ≡ false
    → IsConsistent db
    → IsConsistent (record db { nodes = upsert (λ row. row.id) node db.nodes })
write_node node db own c =
    let db' : Db = record db { nodes = upsert (λ row. row.id) node db.nodes } in
    let keeps : Keeps db db' = record {
      jobs = λ id t h. h;
      nodes =
          λ id t h. references-upsert_own (λ n. n.id) (λ n. n.tenant_id) id t node db.nodes own h;
      workers = λ id t h. h;
    } in
    let kept : Rows db db' keeps = keeps-Rows db db' keeps c in
    record {
      exclusive = c.exclusive;
      lease_refs = kept.lease_refs;
      worker_refs = kept.worker_refs;
      job_refs = kept.job_refs;
      event_refs = kept.event_refs;
    }

stays :
    (worker : Worker) (leases : List Lease)
    → any (Workers.leaves_lease worker) leases ≡ false
    → All (λ l. worker.id ≡ l.worker_id → worker.node.tenant_id ≡ l.tenant_id) leases
stays worker [] h = tt
stays worker (l ∷ ls) h = (λ same. ground arith, stays worker ls (ground arith))

parents :
    (worker : Worker) (db : Db)
    → Workers.parents_are_there worker db ≡ true
    → WorkerRefs db (Workers.to_row worker)
parents worker db h = elim (Option-cases worker.running_job) [
  | inl e ↦ rw e (ground arith, refl)
  | inr (job, e) ↦ rw e (ground arith, ground arith)
]

pub write_worker :
    (worker : Worker) (db : Db)
    → Workers.parents_are_there worker db ≡ true
    → any (Workers.leaves_lease worker) db.leases ≡ false
    → IsConsistent db
    → IsConsistent
        (record db { workers = upsert (λ row. row.id) (Workers.to_row worker) db.workers })
write_worker worker db there own c =
    let row : WorkerRow = Workers.to_row worker in
    let db' : Db = record db { workers = upsert (λ row. row.id) row db.workers } in
    record {
      exclusive = c.exclusive;
      lease_refs =
          All-map
            (λ l. LeaseRefs db l × (worker.id ≡ l.worker_id → worker.node.tenant_id ≡ l.tenant_id))
            (LeaseRefs db') db.leases
            (λ l (refs, keep). (
              references-upsert (λ w. w.id) (λ w. w.tenant_id) l.worker_id l.tenant_id row
                  db.workers keep refs.0,
              refs.1,
            ))
            (All-and (LeaseRefs db) _ db.leases c.lease_refs (stays worker db.leases own));
      worker_refs =
          All-upsert (WorkerRefs db) (λ row. row.id) row db.workers c.worker_refs
            (parents worker db there);
      job_refs = c.job_refs;
      event_refs = c.event_refs;
    }

pub write_lease :
    (lease : Lease) (db : Db)
    → any (Leases.clashes lease) db.leases ≡ false
    → LeaseRefs db lease
    → IsConsistent db
    → IsConsistent (record db { leases = upsert (λ row. row.id) lease db.leases })
write_lease lease db apart refs c = record {
  exclusive = upsert-Exclusive lease db.leases apart c.exclusive;
  lease_refs = All-upsert (LeaseRefs db) (λ row. row.id) lease db.leases c.lease_refs refs;
  worker_refs = c.worker_refs;
  job_refs = c.job_refs;
  event_refs = c.event_refs;
}

pub filter_leases :
    (p : Lease → Bool) (db : Db)
    → IsConsistent db
    → IsConsistent (record db { leases = filter p db.leases })
filter_leases p db c = record {
  exclusive = filter-Exclusive p db.leases c.exclusive;
  lease_refs = All-filter (LeaseRefs db) p db.leases c.lease_refs;
  worker_refs = c.worker_refs;
  job_refs = c.job_refs;
  event_refs = c.event_refs;
}
