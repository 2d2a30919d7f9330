-- ===== src/Tests/Recoveries.antt =====
-- The reconciliation of expired leases.
use aethergrid.Base.{ℕ, ◌+◌, ◌*◌, ◌≡◌, refl, []}
use aethergrid.Domain.Job.{JobStatus}
use aethergrid.Store.{Db}
use aethergrid.Service.Env.{Env}
use aethergrid.Recovery.ExpiredLeases.{recover_expired_leases}
use aethergrid.Tests.Data.{env, busy}

abbrev late : ℕ → Env
late k = record env { now = 40000000 + k; fresh = λ i. 1000 + (10 * k + i) }

-- An expired lease is deleted.
recover_run : (recover_expired_leases late (λ k db. db) busy).1.leases ≡ []
unfolding recover_expired_leases aethergrid.Recovery.ExpiredLeases.recover_lease
    aethergrid.Store.Leases.delete_if_expired aethergrid.Store.Workers.get_by_id
    aethergrid.Store.Workers.save aethergrid.Domain.Worker.recover aethergrid.Store.Jobs.get_by_id
    aethergrid.Recovery.Reclaim.reclaim_job aethergrid.Store.Nodes.get_by_id
    aethergrid.Store.Nodes.save aethergrid.Domain.Node.release aethergrid.Domain.Job.reclaim
    aethergrid.Store.Jobs.save aethergrid.Store.Events.record_for_job
recover_run = refl
