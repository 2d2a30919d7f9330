-- ===== src/Service/Cluster.antt =====
-- cluster_capacity_service.py, cluster_health_service.py and cluster_utilization_service.py in
-- app/application/services.
pub mod Totals
use aethergrid.Base.{
  ℕ, ◌+◌, ◌-◌, List, [], ◌∷◌, Result, ok, raise, ℤ, pos, minus, ◌+ℤ◌, filter, length, value_error,
}
use aethergrid.Domain.Resources.{Resources, Time}
use aethergrid.Domain.Node.{Node, is_alive}
use aethergrid.Store.{Db}
use aethergrid.Store.Nodes

abbrev pub nothing : Resources
nothing = record { cpu_cores = 0; memory_mib = 0; vram_mib = 0 }

abbrev pub plus : Resources → Resources → Resources
plus r s = record {
  cpu_cores = r.cpu_cores + s.cpu_cores;
  memory_mib = r.memory_mib + s.memory_mib;
  vram_mib = r.vram_mib + s.vram_mib;
}

-- The loop over the nodes, on what is read of each.
unfoldable pub total : (Node → Resources) → List Node → Resources
total read [] = nothing
total read (node ∷ nodes) = plus (read node) (total read nodes)

-- `ClusterCapacityService.execute`
unfoldable pub cluster_capacity : (tenant_id : ℕ) → Db → Resources
unfolding total
cluster_capacity tenant_id db = total (λ node. node.available) (Nodes.list tenant_id db)

-- The three sums of `ClusterUtilizationService.execute`, which Python's integers keep below 0 too.
pub record Amounts : Type 0 where
  pub cpu_cores : ℤ
  pub memory_mib : ℤ
  pub vram_mib : ℤ

-- The body of its loop.
abbrev pub add_used : Node → Amounts → Amounts
add_used node a = record {
  cpu_cores = a.cpu_cores +ℤ minus node.capacity.cpu_cores node.available.cpu_cores;
  memory_mib = a.memory_mib +ℤ minus node.capacity.memory_mib node.available.memory_mib;
  vram_mib = a.vram_mib +ℤ minus node.capacity.vram_mib node.available.vram_mib;
}

-- The loop, from the sums so far.
unfoldable pub used_from : List Node → Amounts → Amounts
used_from [] a = a
used_from (node ∷ nodes) a = used_from nodes (add_used node a)

-- `ResourceRequirements(…)`, which refuses a negative amount.
unfoldable pub to_resources : (cpu_cores memory_mib vram_mib : ℤ) → Result Resources
to_resources (pos c) (pos m) (pos v) = ok (record { cpu_cores = c; memory_mib = m; vram_mib = v })
to_resources _ _ _ = raise value_error

abbrev pub no_amounts : Amounts
no_amounts = record { cpu_cores = pos 0; memory_mib = pos 0; vram_mib = pos 0 }

-- `ClusterUtilizationService.execute`
unfoldable pub cluster_utilization : (tenant_id : ℕ) → Db → Result Resources
unfolding used_from to_resources
cluster_utilization tenant_id db =
    let used : Amounts = used_from (Nodes.list tenant_id db) no_amounts in
    to_resources used.cpu_cores used.memory_mib used.vram_mib

pub record ClusterHealth : Type 0 where
  pub total_nodes : ℕ
  pub alive_nodes : ℕ
  pub offline_nodes : ℕ

-- `ClusterHealthService.execute`
unfoldable pub cluster_health : (now : Time) → (tenant_id : ℕ) → Db → ClusterHealth
cluster_health now tenant_id db =
    let nodes : List Node = Nodes.list tenant_id db in
    let alive : ℕ = length (filter (is_alive now) nodes) in
    record { total_nodes = length nodes; alive_nodes = alive; offline_nodes = length nodes - alive }
