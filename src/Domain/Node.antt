-- ===== src/Domain/Node.antt =====
-- app/domain/entities/node.py: a compute node and its resource accounting.
pub mod Capacity
use aethergrid.Base.{
  Result, ℕ, ◌+◌, ◌-◌, min, String, Bool, true, false, not, List, [], leb, if◌then◌else◌, Action,
  ok, raise, value_error, insufficient_node_capacity, pure, throw_if, ◌>>◌,
}
use aethergrid.Domain.Resources.{Time, Duration, Resources, seconds, covers}

abbrev pub heartbeat_timeout : Duration
heartbeat_timeout = seconds 60

pub record Node : Type 0 where
  pub id : ℕ
  pub capacity : Resources
  pub tenant_id : ℕ
  pub name : String
  pub labels : List (String × String)
  pub last_seen_at : Time
  pub draining : Bool
  pub available : Resources

-- `Node.__post_init__`
unfoldable pub post_init : {S : Type 0} → Node → Action S Node
post_init node = do
  throw_if (not (leb node.available.cpu_cores node.capacity.cpu_cores)) value_error
  throw_if (not (leb node.available.memory_mib node.capacity.memory_mib)) value_error
  throw_if (not (leb node.available.vram_mib node.capacity.vram_mib)) value_error
  pure node

-- `name or generate_node_name()`, with no name for `None`
unfoldable pub name_or : String → String → String
name_or String.[] generated = generated
name_or (String.◌∷◌ c s) generated = String.◌∷◌ c s

-- `Node.register`. `generated` is what `generate_node_name()` would return.
unfoldable pub register : {S : Type 0} → ℕ → Resources → ℕ → String → String → Time → Action S Node
unfolding post_init name_or
register id capacity tenant_id name generated now = post_init (record {
  id = id;
  capacity = capacity;
  tenant_id = tenant_id;
  name = name_or name generated;
  labels = [];
  last_seen_at = now;
  draining = false;
  available = capacity;
})

unfoldable pub heartbeat : Time → Node → Node
heartbeat now node = record node { last_seen_at = now }

-- `(utc_now() - last_seen_at) <= HEARTBEAT_TIMEOUT`
unfoldable pub is_alive : Time → Node → Bool
is_alive now node = leb now (node.last_seen_at + heartbeat_timeout)

unfoldable pub drain : Node → Node
drain node = record node { draining = true }

unfoldable pub can_host : Resources → Node → Bool
unfolding covers
can_host requirements node = covers node.available requirements

unfoldable pub allocate : Resources → Action Node (Unit {0})
unfolding can_host
allocate requirements node =
    if not (can_host requirements node) then (raise insufficient_node_capacity, node) else (
      ok tt,
      record node {
        available = record {
          cpu_cores = node.available.cpu_cores - requirements.cpu_cores;
          memory_mib = node.available.memory_mib - requirements.memory_mib;
          vram_mib = node.available.vram_mib - requirements.vram_mib;
        };
      },
    )

unfoldable pub release : Resources → Node → Node
release requirements node = record node {
  available = record {
    cpu_cores = min (node.available.cpu_cores + requirements.cpu_cores) node.capacity.cpu_cores;
    memory_mib = min (node.available.memory_mib + requirements.memory_mib) node.capacity.memory_mib;
    vram_mib = min (node.available.vram_mib + requirements.vram_mib) node.capacity.vram_mib;
  };
}
