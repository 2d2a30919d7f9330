-- ===== src/Routes/Nodes.antt =====
-- app/presentation/routers/nodes.py. The lists of nodes are left out.
use aethergrid.Base.{ℕ, Bool, Option, none, some, String, Error}
use aethergrid.Domain.Resources.{Resources, Time}
use aethergrid.Domain.Node.{Node, is_alive}
use aethergrid.Service.Env.{Env}
use aethergrid.Service.Nodes.{create_node, heartbeat_node, drain_node, remove_offline_node}
use aethergrid.Access.ApiKey.{ApiKey}
use aethergrid.Routes.{answered, Route, refuse, attempt, no_handler, unguarded}
use aethergrid.Routes.Workers.{get_node, no_node}

pub record GetNodeResponse : Type 0 where
  pub id : ℕ
  pub capacity : Resources
  pub available : Resources
  pub is_alive : Bool
  pub is_draining : Bool

-- `GetNodeResponse(…)`
unfoldable pub get_node_response : (now : Time) → Node → GetNodeResponse
get_node_response now node = record {
  id = node.id;
  capacity = node.capacity;
  available = node.available;
  is_alive = is_alive now node;
  is_draining = node.draining;
}

-- `POST /nodes`
unfoldable pub create_node_route :
    Env → Resources → (name generated : String) → (caller : ApiKey) → Route ℕ
create_node_route env capacity name generated caller =
    attempt (create_node env capacity caller.tenant_id name generated) no_handler
      λ node db. (answered 201 node.id, db)

-- `GET /nodes/{node_id}`
unfoldable pub get_node_route :
    Env → (node_id : Option ℕ) → (caller : ApiKey) → Route GetNodeResponse
unfolding get_node_response
get_node_route env node_id caller = unguarded node_id λ id.
    attempt (get_node id caller.tenant_id) no_node
      λ node db. (answered 200 (get_node_response env.now node), db)

-- `POST /nodes/{node_id}/heartbeat`
unfoldable pub heartbeat_node_route :
    Env → (node_id : Option ℕ) → (caller : ApiKey) → Route GetNodeResponse
unfolding get_node_response
heartbeat_node_route env node_id caller = unguarded node_id λ id.
    attempt (heartbeat_node env id caller.tenant_id) no_handler λ found. elim found [
      | none ↦ refuse 404
      | some node ↦ λ db. (answered 200 (get_node_response env.now node), db)
    ]

-- `POST /nodes/{node_id}/drain`
unfoldable pub drain_node_route :
    Env → (node_id : Option ℕ) → (caller : ApiKey) → Route GetNodeResponse
unfolding get_node_response
drain_node_route env node_id caller = unguarded node_id λ id.
    attempt (drain_node id caller.tenant_id) no_node
      λ node db. (answered 200 (get_node_response env.now node), db)

abbrev pub no_removal : Error → Option ℕ
no_removal Error.node_not_found = some 404
no_removal Error.node_still_alive = some 409
no_removal _ = none

-- `DELETE /nodes/{node_id}`
unfoldable pub remove_node_route : Env → (node_id : Option ℕ) → (caller : ApiKey) → Route (Unit {0})
remove_node_route env node_id caller = unguarded node_id λ id.
    attempt (remove_offline_node env id caller.tenant_id) no_removal λ _ db. (answered 204 tt, db)
