-- ===== src/Recovery/LiveLeases.antt =====
-- What recover_expired_lease_service.py leaves alone: a lease whose end is still ahead, and the keys of
-- the tables.
use aethergrid.Base.{Member}
use aethergrid.Domain.Lease.{Lease}
use aethergrid.Store.{Db}
use aethergrid.Store.Jobs
use aethergrid.Store.Nodes
use aethergrid.Store.Workers
use aethergrid.Store.Leases
use aethergrid.Service.Env.{Env}

abbrev pub IsHeld : Lease → Db → Type 0
IsHeld l db = Member l db.leases
