-- ===== src/Tests/Statements.antt =====
-- Consistent tables.
use aethergrid.Base.{refl, [], ◌∷◌}
use aethergrid.Store.Consistent.{IsConsistent}
use aethergrid.Store.Consistent.History.{Statement, run, run-IsConsistent}
use aethergrid.Tests.Data.{scheduled_job, lease, busy}

pub busy-IsConsistent : IsConsistent busy
busy-IsConsistent = record {
  exclusive = (tt, tt);
  lease_refs = ((refl, refl), tt);
  worker_refs = ((refl, refl), tt);
  job_refs = (refl, tt);
  event_refs = tt;
}

run-IsConsistent_example : IsConsistent (
    run
      (Statement.renews_lease 40 5 1 200
        ∷ Statement.saves_lease (record lease { id = 41 })
        ∷ Statement.deletes_node 20 1
        ∷ Statement.saves_job scheduled_job
        ∷ [])
      busy)
run-IsConsistent_example =
    run-IsConsistent
      (Statement.renews_lease 40 5 1 200
        ∷ Statement.saves_lease (record lease { id = 41 })
        ∷ Statement.deletes_node 20 1
        ∷ Statement.saves_job scheduled_job
        ∷ [])
      busy busy-IsConsistent
