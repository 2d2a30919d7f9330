-- ===== src/Store/Consistent/Each.antt =====
-- Each write statement of the repositories, refused or not, on consistent tables.
use aethergrid.Base.{
  ℕ, ◌+◌, ◌≡◌, Bool, true, not, List, [], ◌∷◌, ◌++◌, ◌==◌, arith, All, All-map, any, map,
  Bool-cases, inl, inr, if◌then◌else◌,
}
use aethergrid.Domain.Resources.{Time, Duration}
use aethergrid.Domain.Job.{Job}
use aethergrid.Domain.Node.{Node}
use aethergrid.Domain.Worker.{Worker}
use aethergrid.Domain.Lease.{Lease}
use aethergrid.Domain.Event.{Event}
use aethergrid.Store.{Db, references}
use aethergrid.Store.Jobs
use aethergrid.Store.Nodes
use aethergrid.Store.Workers
use aethergrid.Store.Leases
use aethergrid.Store.Leases.{is_lease}
use aethergrid.Store.Events
use aethergrid.Store.Consistent.{IsConsistent, Exclusive, Apart, LeaseRefs, has_job, has_worker}
use aethergrid.Store.Consistent.Statements.{
  write_job, write_node, write_worker, write_lease, filter_leases,
}
use aethergrid.Store.Consistent.Deletion.{cascade-IsConsistent, map-All}

pub save_job : (job : Job) (db : Db) → IsConsistent db → IsConsistent (Jobs.save job db).1
unfolding Jobs.save
save_job job db c = elim (Bool-cases (any (Jobs.in_other_tenant job) db.jobs)) [
  | inl e ↦ rw e c
  | inr e ↦ elim (Bool-cases (Jobs.node_is_there job db)) [
    | inr n ↦ rw (e, n) c
    | inl there ↦ rw (e, there) (write_job job db e there c)
  ]
]

pub save_node : (node : Node) (db : Db) → IsConsistent db → IsConsistent (Nodes.save node db).1
unfolding Nodes.save
save_node node db c = elim (Bool-cases (any (Nodes.in_other_tenant node) db.nodes)) [
  | inl e ↦ rw e c
  | inr e ↦ rw e (write_node node db e c)
]

pub delete_node : (id t : ℕ) (db : Db) → IsConsistent db → IsConsistent (Nodes.delete id t db)
unfolding Nodes.delete
delete_node id t db c =
    elim (Bool-cases (references (λ (n : Node). n.id) (λ n. n.tenant_id) id t db.nodes)) [
      | inl e ↦ rw e (cascade-IsConsistent id db c)
      | inr e ↦ rw e c
    ]

pub save_worker :
    (worker : Worker) (db : Db) → IsConsistent db → IsConsistent (Workers.save worker db).1
unfolding Workers.save
save_worker worker db c = elim (Bool-cases (Workers.parents_are_there worker db)) [
  | inr e ↦ rw e c
  | inl there ↦ elim (Bool-cases (any (Workers.leaves_lease worker) db.leases)) [
    | inl e ↦ rw (there, e) c
    | inr e ↦ rw (there, e) (write_worker worker db there e c)
  ]
]

pub save_lease : (lease : Lease) (db : Db) → IsConsistent db → IsConsistent (Leases.save lease db).1
unfolding Leases.save
save_lease lease db c = elim (Bool-cases (any (Leases.clashes lease) db.leases)) [
  | inl e ↦ rw e c
  | inr e ↦ elim (Bool-cases (has_worker lease.worker_id lease.tenant_id db)) [
    | inr w ↦ rw (e, w) c
    | inl w ↦ elim (Bool-cases (has_job lease.job_id lease.tenant_id db)) [
      | inr j ↦ rw (e, w, j) c
      | inl j ↦ rw (e, w, j) (write_lease lease db e (w, j) c)
    ]
  ]
]

-- Another end of a lease is in no key.
abbrev until : (test : Lease → Bool) → Time → Lease → Lease
until test end row = if test row then record row { expires_at = end } else row

until-Apart :
    (l m : Lease) (test : Lease → Bool) (end : Time)
    → Apart l m
    → Apart (until test end l) (until test end m)
until-Apart l m test end a = ground arith

until-Exclusive :
    (test : Lease → Bool) (end : Time) (ls : List Lease)
    → Exclusive ls
    → Exclusive (map (until test end) ls)
until-Exclusive test end [] h = tt
until-Exclusive test end (l ∷ ls) h = (
  map-All (Apart (until test end l)) (until test end) ls (
      All-map (Apart l) (λ m. Apart (until test end l) (until test end m)) ls
        (λ m. until-Apart l m test end) h.0),
  until-Exclusive test end ls h.1,
)

until-LeaseRefs :
    (test : Lease → Bool) (end : Time) (db : Db) (l : Lease)
    → LeaseRefs db l
    → LeaseRefs db (until test end l)
until-LeaseRefs test end db l h = ground (arith, h)

pub renew_lease :
    (id : ℕ) (duration : Duration) (t : ℕ) (now : Time) (db : Db)
    → IsConsistent db
    → IsConsistent (Leases.renew id duration t now db).1
unfolding Leases.renew
renew_lease id duration t now db c = elim (Bool-cases (any (is_lease id t) db.leases)) [
  | inr e ↦ rw e c
  | inl e ↦ rw e (record {
    exclusive = until-Exclusive (is_lease id t) (now + duration) db.leases c.exclusive;
    lease_refs = map-All (LeaseRefs db) (until (is_lease id t) (now + duration)) db.leases (
        All-map (LeaseRefs db) _ db.leases (until-LeaseRefs (is_lease id t) (now + duration) db)
          c.lease_refs);
    worker_refs = c.worker_refs;
    job_refs = c.job_refs;
    event_refs = c.event_refs;
  })
]

pub delete_lease : (job t : ℕ) (db : Db) → IsConsistent db → IsConsistent (Leases.delete job t db)
unfolding Leases.delete
delete_lease job t db c = filter_leases (λ row. not (Leases.of_job job t row)) db c

pub delete_if_expired :
    (job t : ℕ) (now : Time) (db : Db)
    → IsConsistent db
    → IsConsistent (Leases.delete_if_expired job t now db).1
unfolding Leases.delete_if_expired
delete_if_expired job t now db c =
    filter_leases (λ row. not (Leases.expired_of_job job t now row)) db c

append-All {κ} :
    {A : Type 0} (P : A → Type κ) (xs : List A) (x : A) → All P xs → P x → All P (xs ++ x ∷ [])
append-All P [] x h p = (p, tt)
append-All P (y ∷ ys) x h p = (h.0, append-All P ys x h.1 p)

pub save_event : (event : Event) (db : Db) → IsConsistent db → IsConsistent (Events.save event db).1
unfolding Events.save
save_event event db c = elim (Bool-cases (any (λ (row : Event). row.id == event.id) db.events)) [
  | inl e ↦ rw e c
  | inr e ↦ elim (Bool-cases (has_job event.aggregate_id event.tenant_id db)) [
    | inr j ↦ rw (e, j) c
    | inl j ↦
        rw (e, j)
          (record {
            exclusive = c.exclusive;
            lease_refs = c.lease_refs;
            worker_refs = c.worker_refs;
            job_refs = c.job_refs;
            event_refs =
                append-All (λ (e : Event). has_job e.aggregate_id e.tenant_id db ≡ true) db.events
                  event c.event_refs j;
          })
  ]
]
