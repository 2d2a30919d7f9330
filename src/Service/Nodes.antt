-- ===== src/Service/Nodes.antt =====
-- create_node_service.py, heartbeat_node_service.py, drain_node_service.py and
-- remove_offline_node_service.py in app/application/services.
use aethergrid.Base.{
  ℕ, Option, none, some, String, Action, node_not_found, node_still_alive, pure, gets, or_throw,
  throw_if, modify, ◌>>=◌, ◌>>◌,
}
use aethergrid.Domain.Resources.{Resources}
use aethergrid.Domain.Node
use aethergrid.Domain.Node.{Node}
use aethergrid.Store.{Db}
use aethergrid.Store.Nodes
use aethergrid.Service.Env.{Env}

-- `CreateNodeService.execute`. `generated` is what `generate_node_name()` would return.
unfoldable pub create_node :
    Env → Resources → (tenant_id : ℕ) → (name generated : String) → Action Db Node
create_node env capacity tenant_id name generated = do
  node ← Node.register (env.fresh 0) capacity tenant_id name generated env.now
  Nodes.save node
  pure node

-- `HeartbeatNodeService.execute`
unfoldable pub heartbeat_node : Env → (node_id tenant_id : ℕ) → Action Db (Option Node)
heartbeat_node env node_id tenant_id = do
  found ← gets (Nodes.get_by_id node_id tenant_id)
  elim found [
    | none ↦ pure none
    | some node ↦ do let node' = Node.heartbeat env.now node; Nodes.save node'; pure (some node')
  ]

-- `DrainNodeService.execute`
unfoldable pub drain_node : (node_id tenant_id : ℕ) → Action Db Node
drain_node node_id tenant_id = do
  node ← or_throw node_not_found (← gets (Nodes.get_by_id node_id tenant_id))
  let node' = Node.drain node
  Nodes.save node'
  pure node'

-- `RemoveOfflineNodeService.execute`
unfoldable pub remove_offline_node : Env → (node_id tenant_id : ℕ) → Action Db (Unit {0})
remove_offline_node env node_id tenant_id = do
  node ← or_throw node_not_found (← gets (Nodes.get_by_id node_id tenant_id))
  throw_if (Node.is_alive env.now node) node_still_alive
  modify (Nodes.delete node_id tenant_id)
