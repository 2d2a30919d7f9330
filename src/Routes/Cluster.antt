-- ===== src/Routes/Cluster.antt =====
-- app/presentation/routers/cluster.py
use aethergrid.Base.{ok, raise}
use aethergrid.Domain.Resources.{Resources}
use aethergrid.Access.ApiKey.{ApiKey}
use aethergrid.Service.Env.{Env}
use aethergrid.Service.Cluster.{
  ClusterHealth, cluster_capacity, cluster_health, cluster_utilization,
}
use aethergrid.Routes.{answered, crashed, Route}

-- `GET /cluster/health`
unfoldable pub get_cluster_health : Env → (caller : ApiKey) → Route ClusterHealth
get_cluster_health env caller db = (answered 200 (cluster_health env.now caller.tenant_id db), db)

-- `GET /cluster/capacity`
unfoldable pub get_cluster_capacity : (caller : ApiKey) → Route Resources
get_cluster_capacity caller db = (answered 200 (cluster_capacity caller.tenant_id db), db)

-- `GET /cluster/utilization`
unfoldable pub get_cluster_utilization : (caller : ApiKey) → Route Resources
get_cluster_utilization caller db = elim (cluster_utilization caller.tenant_id db) [
  | ok used ↦ (answered 200 used, db)
  | raise x ↦ (crashed x, db)
]
