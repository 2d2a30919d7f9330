-- ===== src/Store/Consistent/History.antt =====
-- The write statements of the repositories, in any order, from any processes.
use aethergrid.Base.{sym, ap, ◌∙◌, ◌⊎◌, Member, All-Member, ℕ, ◌≡◌, List, [], ◌∷◌, inl, inr}
use aethergrid.Domain.Resources.{Time, Duration}
use aethergrid.Domain.Job.{Job}
use aethergrid.Domain.Node.{Node}
use aethergrid.Domain.Worker.{Worker}
use aethergrid.Domain.Lease.{Lease}
use aethergrid.Domain.Event.{Event}
use aethergrid.Store.{Db}
use aethergrid.Store.Jobs
use aethergrid.Store.Nodes
use aethergrid.Store.Workers
use aethergrid.Store.Leases
use aethergrid.Store.Leases.{is_lease}
use aethergrid.Store.Events
use aethergrid.Store.Consistent.{IsConsistent, Exclusive, Apart}
use aethergrid.Store.Consistent.Deletion.{delete_worker-IsConsistent}
use aethergrid.Store.Consistent.Each.{
  save_job, save_node, delete_node, save_worker, save_lease, renew_lease, delete_lease,
  delete_if_expired, save_event,
}

-- A write statement of a repository, with its arguments.
pub data Statement : Type 0 where
  saves_job : Job → Statement
  saves_node : Node → Statement
  deletes_node : (node_id tenant_id : ℕ) → Statement
  saves_worker : Worker → Statement
  deletes_worker : (worker_id tenant_id : ℕ) → Statement
  saves_lease : Lease → Statement
  renews_lease : (lease_id : ℕ) (duration : Duration) (tenant_id : ℕ) (now : Time) → Statement
  deletes_lease : (job_id tenant_id : ℕ) → Statement
  deletes_expired_lease : (job_id tenant_id : ℕ) (now : Time) → Statement
  saves_event : Event → Statement

-- The tables after it, also where it is refused.
unfoldable pub execute : Statement → Db → Db
unfolding Jobs.save Nodes.save Nodes.delete Workers.save Workers.delete Leases.save Leases.renew
    Leases.delete Leases.delete_if_expired Events.save
execute (saves_job job) db = (Jobs.save job db).1
execute (saves_node node) db = (Nodes.save node db).1
execute (deletes_node id t) db = Nodes.delete id t db
execute (saves_worker worker) db = (Workers.save worker db).1
execute (deletes_worker id t) db = Workers.delete id t db
execute (saves_lease lease) db = (Leases.save lease db).1
execute (renews_lease id duration t now) db = (Leases.renew id duration t now db).1
execute (deletes_lease job t) db = Leases.delete job t db
execute (deletes_expired_lease job t now) db = (Leases.delete_if_expired job t now db).1
execute (saves_event event) db = (Events.save event db).1

execute-IsConsistent : (s : Statement) (db : Db) → IsConsistent db → IsConsistent (execute s db)
unfolding execute
execute-IsConsistent (saves_job job) db c = save_job job db c
execute-IsConsistent (saves_node node) db c = save_node node db c
execute-IsConsistent (deletes_node id t) db c = delete_node id t db c
execute-IsConsistent (saves_worker worker) db c = save_worker worker db c
execute-IsConsistent (deletes_worker id t) db c = delete_worker-IsConsistent id t db c
execute-IsConsistent (saves_lease lease) db c = save_lease lease db c
execute-IsConsistent (renews_lease id duration t now) db c = renew_lease id duration t now db c
execute-IsConsistent (deletes_lease job t) db c = delete_lease job t db c
execute-IsConsistent (deletes_expired_lease job t now) db c = delete_if_expired job t now db c
execute-IsConsistent (saves_event event) db c = save_event event db c

unfoldable pub run : List Statement → Db → Db
unfolding execute
run [] db = db
run (s ∷ ss) db = run ss (execute s db)

-- From consistent tables, every sequence of write statements, refused ones included, leads to
-- consistent tables: no two leases share a job or a worker, and every reference of a lease, a worker,
-- a job or an event is to a row of the same tenant.
pub run-IsConsistent :
    (statements : List Statement) (db : Db) → IsConsistent db → IsConsistent (run statements db)
unfolding run
run-IsConsistent [] db c = c
run-IsConsistent (s ∷ ss) db c = run-IsConsistent ss (execute s db) (execute-IsConsistent s db c)

-- Two leases of consistent tables that share their job, or their worker, are one.
pub Exclusive-leases :
    (l m : Lease) (ls : List Lease)
    → Exclusive ls
    → Member l ls
    → Member m ls
    → (l.job_id ≡ m.job_id) ⊎ (l.worker_id ≡ m.worker_id)
    → l ≡ m
Exclusive-leases l m [] h a b e = absurd a
Exclusive-leases l m (x ∷ xs) h (inl a) (inl b) e = a ∙ sym b
Exclusive-leases l m (x ∷ xs) h (inr a) (inr b) e = Exclusive-leases l m xs h.1 a b e
Exclusive-leases l m (x ∷ xs) h (inl a) (inr b) e =
    let apart : Apart x m = All-Member (Apart x) m xs h.0 b in
    absurd (elim e [
      | inl job ↦ apart.job (sym job ∙ ap (λ y. y.job_id) a)
      | inr worker ↦ apart.worker (sym worker ∙ ap (λ y. y.worker_id) a)
    ])
Exclusive-leases l m (x ∷ xs) h (inr a) (inl b) e =
    let apart : Apart x l = All-Member (Apart x) l xs h.0 a in
    absurd (elim e [
      | inl job ↦ apart.job (job ∙ ap (λ y. y.job_id) b)
      | inr worker ↦ apart.worker (worker ∙ ap (λ y. y.worker_id) b)
    ])
