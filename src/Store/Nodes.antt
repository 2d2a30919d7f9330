-- ===== src/Store/Nodes.antt =====
-- app/infrastructure/repositories/postgres_node_repository.py. Reading a row also runs
-- `Node.__post_init__`, which is left out: `Node` values that the program builds pass it.
use aethergrid.Base.{
  ℕ, Bool, not, Option, none, List, ◌==◌, ◌&&◌, if◌then◌else◌, any, filter, find, map, holds,
  Action, ok, raise, node_tenant_conflict,
}
use aethergrid.Domain.Resources.{Time}
use aethergrid.Domain.Job.{Job}
use aethergrid.Domain.Node.{Node, is_alive}
use aethergrid.Store.{Db, WorkerRow, upsert, references}

abbrev pub in_other_tenant : Node → Node → Bool
in_other_tenant node row = row.id == node.id && not (row.tenant_id == node.tenant_id)

unfoldable pub save : Node → Action Db (Unit {0})
save node db =
    if any (in_other_tenant node) db.nodes
    then (raise node_tenant_conflict, db)
    else (ok tt, record db { nodes = upsert (λ row. row.id) node db.nodes })

unfoldable pub list : ℕ → Db → List Node
list tenant_id db = filter (λ row. row.tenant_id == tenant_id) db.nodes

unfoldable pub get_by_id : ℕ → ℕ → Db → Option Node
get_by_id node_id tenant_id db =
    find (λ row. row.id == node_id && row.tenant_id == tenant_id) db.nodes

unfoldable pub get_by_id_across_tenants : ℕ → Db → Option Node
get_by_id_across_tenants node_id db = find (λ row. row.id == node_id) db.nodes

abbrev pub list_across_tenants : Db → List Node
list_across_tenants db = db.nodes

unfoldable pub list_available_across_tenants : Time → Db → List Node
unfolding is_alive
list_available_across_tenants now db =
    filter (is_alive now) (filter (λ row. not row.draining) db.nodes)

-- ON DELETE SET NULL of `jobs_assigned_node_same_tenant`.
abbrev pub unassign : ℕ → Job → Job
unassign node_id job =
    if holds job.assigned_node_id node_id then record job { assigned_node_id = none } else job

abbrev pub on_node : ℕ → WorkerRow → Bool
on_node node_id worker = worker.node_id == node_id

-- ON DELETE CASCADE from nodes to workers and from workers to leases.
abbrev pub cascade : ℕ → Db → Db
cascade node_id db = record db {
  nodes = filter (λ row. not (row.id == node_id)) db.nodes;
  jobs = map (unassign node_id) db.jobs;
  workers = filter (λ row. not (on_node node_id row)) db.workers;
  leases =
      filter
        (λ lease. not (any (λ row. on_node node_id row && row.id == lease.worker_id) db.workers))
        db.leases;
}

unfoldable pub delete : ℕ → ℕ → Db → Db
delete node_id tenant_id db =
    if references (λ (n : Node). n.id) (λ n. n.tenant_id) node_id tenant_id db.nodes
    then cascade node_id db
    else db
