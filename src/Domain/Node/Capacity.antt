-- ===== src/Domain/Node/Capacity.antt =====
-- The resource accounting of a node: what is available never exceeds the capacity.
use aethergrid.Base.{◌≡◌, ◌+◌, arith, ok, raise, insufficient_node_capacity}
use aethergrid.Domain.Resources.{Resources, Fits}
use aethergrid.Domain.Node.{Node, allocate, release}

-- What `__post_init__` demands of a node.
abbrev pub IsSound : Node → Type 0
IsSound node = Fits node.available node.capacity

-- What an allocation that went through took, and what it left alone.
pub record Takes (r : Resources) (node node' : Node) : Type 0 where
  pub cpu : node'.available.cpu_cores + r.cpu_cores ≡ node.available.cpu_cores
  pub memory : node'.available.memory_mib + r.memory_mib ≡ node.available.memory_mib
  pub vram : node'.available.vram_mib + r.vram_mib ≡ node.available.vram_mib
  pub same : record node' { available = node.available } ≡ node

pub allocate-Takes :
    (r : Resources) (node : Node)
    → Fits r node.available
    → ((allocate r node).0 ≡ ok tt) × Takes r node (allocate r node).1
unfolding allocate
allocate-Takes r node h = ground arith

pub allocate_refused :
    (r : Resources) (node : Node)
    → (allocate r node).0 ≡ raise insufficient_node_capacity
    → (allocate r node).1 ≡ node
unfolding allocate
allocate_refused r node h = ground arith

pub allocate-IsSound : (r : Resources) (node : Node) → IsSound node → IsSound (allocate r node).1
unfolding allocate
allocate-IsSound r node h = ground arith

pub release-IsSound : (r : Resources) (node : Node) → IsSound (release r node)
unfolding release
release-IsSound r node = ground arith

-- Giving back what was taken restores the node.
pub release-allocate :
    (r : Resources) (node : Node)
    → IsSound node
    → Fits r node.available
    → release r (allocate r node).1 ≡ node
unfolding allocate release
release-allocate r node s h = ground arith
