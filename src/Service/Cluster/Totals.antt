-- ===== src/Service/Cluster/Totals.antt =====
-- What the summaries of a tenant's nodes add up to.
use aethergrid.Base.{
  ℕ, ◌+◌, ◌-◌, ◌≤◌, ◌≡◌, refl, ap, ◌∙◌, List, [], ◌∷◌, pos, minus, ◌+ℤ◌, ok, All, All-filter, ◌==◌,
  arith,
}
use aethergrid.Domain.Resources.{Resources, Fits}
use aethergrid.Domain.Node.{Node}
use aethergrid.Store.{Db}
use aethergrid.Store.Nodes
use aethergrid.Service.Cluster.{
  nothing, plus, total, Amounts, add_used, used_from, to_resources, cluster_capacity,
  cluster_utilization,
}

-- No more is available than the node has.
abbrev pub IsWithin : Node → Type 0
IsWithin node = Fits node.available node.capacity

-- Resources as amounts.
abbrev amounts : Resources → Amounts
amounts r = record {
  cpu_cores = pos r.cpu_cores;
  memory_mib = pos r.memory_mib;
  vram_mib = pos r.vram_mib;
}

-- What a node has in use.
abbrev in_use : Node → Resources
in_use node = record {
  cpu_cores = node.capacity.cpu_cores - node.available.cpu_cores;
  memory_mib = node.capacity.memory_mib - node.available.memory_mib;
  vram_mib = node.capacity.vram_mib - node.available.vram_mib;
}

pos-minus : (a b c : ℕ) → b ≤ a → pos c +ℤ minus a b ≡ pos (c + (a - b))
pos-minus a b c h = ground (arith, h)

add_used-amounts :
    (node : Node) (r : Resources)
    → IsWithin node
    → add_used node (amounts r) ≡ amounts (plus r (in_use node))
add_used-amounts node r h =
    rw
      (
        pos-minus node.capacity.cpu_cores node.available.cpu_cores r.cpu_cores h.cpu,
        pos-minus node.capacity.memory_mib node.available.memory_mib r.memory_mib h.memory,
        pos-minus node.capacity.vram_mib node.available.vram_mib r.vram_mib h.vram,
      )
      refl

plus_assoc : (r s t : Resources) → plus (plus r s) t ≡ plus r (plus s t)
plus_assoc r s t =
    let cpu : (r.cpu_cores + s.cpu_cores) + t.cpu_cores
        ≡ r.cpu_cores + (s.cpu_cores + t.cpu_cores) =
      omega arith in
    let memory : (r.memory_mib + s.memory_mib) + t.memory_mib
        ≡ r.memory_mib + (s.memory_mib + t.memory_mib) =
      omega arith in
    let vram : (r.vram_mib + s.vram_mib) + t.vram_mib ≡ r.vram_mib + (s.vram_mib + t.vram_mib) =
      omega arith in
    rw (cpu, memory, vram) refl

plus_swap : (r s t u : Resources) → plus (plus r s) (plus t u) ≡ plus (plus r t) (plus s u)
plus_swap r s t u =
    rw
      (
        swap r.cpu_cores s.cpu_cores t.cpu_cores u.cpu_cores,
        swap r.memory_mib s.memory_mib t.memory_mib u.memory_mib,
        swap r.vram_mib s.vram_mib t.vram_mib u.vram_mib,
      )
      refl
  where
    swap : (a b c d : ℕ) → (a + b) + (c + d) ≡ (a + c) + (b + d)
    swap a b c d = omega arith

available-in_use : (node : Node) → IsWithin node → plus node.available (in_use node) ≡ node.capacity
available-in_use node h =
    rw
      (
        back node.available.cpu_cores node.capacity.cpu_cores h.cpu,
        back node.available.memory_mib node.capacity.memory_mib h.memory,
        back node.available.vram_mib node.capacity.vram_mib h.vram,
      )
      refl
  where
    back : (a c : ℕ) → a ≤ c → a + (c - a) ≡ c
    back a c f = omega (arith, f)

nothing-plus : (r : Resources) → plus nothing r ≡ r
nothing-plus r = rw (zero_left r.cpu_cores, zero_left r.memory_mib, zero_left r.vram_mib) refl
  where
    zero_left : (a : ℕ) → 0 + a ≡ a
    zero_left a = omega arith

-- The loop adds up what each node has in use.
used_from-total :
    (nodes : List Node) (r : Resources)
    → All IsWithin nodes
    → used_from nodes (amounts r) ≡ amounts (plus r (total in_use nodes))
unfolding used_from total
used_from-total [] r h =
    let cpu : r.cpu_cores + 0 ≡ r.cpu_cores = omega arith in
    let memory : r.memory_mib + 0 ≡ r.memory_mib = omega arith in
    let vram : r.vram_mib + 0 ≡ r.vram_mib = omega arith in rw (cpu, memory, vram) refl
used_from-total (node ∷ nodes) r h =
    ap (used_from nodes) (add_used-amounts node r h.0)
    ∙ used_from-total nodes (plus r (in_use node)) h.1
    ∙ ap amounts (plus_assoc r (in_use node) (total in_use nodes))

total-plus :
    (nodes : List Node)
    → All IsWithin nodes
    → plus (total (λ node. node.available) nodes) (total in_use nodes)
      ≡ total (λ node. node.capacity) nodes
unfolding total
total-plus [] h = refl
total-plus (node ∷ nodes) h =
    let free : Resources = total (λ node. node.available) nodes in
    let rest : plus free (total in_use nodes) ≡ total (λ node. node.capacity) nodes =
      total-plus nodes h.1 in
    plus_swap node.available free (in_use node) (total in_use nodes)
    ∙ ap (λ r. plus r (plus free (total in_use nodes))) (available-in_use node h.0)
    ∙ ap (plus node.capacity) rest

-- Where no node has more available than its capacity, the utilization of a tenant is reported without an
-- error, and what is reported as available and as in use adds up to the capacity of the tenant's nodes.
pub cluster_utilization-total :
    (tenant_id : ℕ) (db : Db)
    → All IsWithin db.nodes
    → (used : Resources) × (cluster_utilization tenant_id db ≡ ok used)
      × (plus (cluster_capacity tenant_id db) used
          ≡ total (λ node. node.capacity) (Nodes.list tenant_id db))
unfolding cluster_utilization cluster_capacity Nodes.list to_resources
cluster_utilization-total tenant_id db h =
    let nodes : List Node = Nodes.list tenant_id db in
    let within : All IsWithin nodes =
      All-filter IsWithin (λ node. node.tenant_id == tenant_id) db.nodes h in
    (
      total in_use nodes,
      ap (λ (a : Amounts). to_resources a.cpu_cores a.memory_mib a.vram_mib)
          (used_from-total nodes nothing within ∙ ap amounts (nothing-plus (total in_use nodes))),
      total-plus nodes within,
    )
