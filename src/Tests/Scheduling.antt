-- ===== src/Tests/Scheduling.antt =====
-- The choice of a node.
use aethergrid.Base.{◌≡◌, refl, ok, some, [], ◌∷◌, arith}
use aethergrid.Base.Text.{get}
use aethergrid.Domain.Scheduler.{select_node}
use aethergrid.Domain.Scheduler.Selection.{Selects, select_node-Selects}
use aethergrid.Tests.Data.{queued_job, free_node, used_node, thousandths}

select_node-Selects_example :
    Selects thousandths queued_job 200
      (free_node ∷ used_node ∷ [])
      (select_node thousandths queued_job (free_node ∷ used_node ∷ []) 200)
select_node-Selects_example =
    select_node-Selects thousandths queued_job (free_node ∷ used_node ∷ []) 200 (omega arith)

-- The tighter of the two.
select_node_run :
    select_node thousandths queued_job (free_node ∷ used_node ∷ []) 200 ≡ ok (some used_node)
unfolding select_node aethergrid.Base.Text.has_entry aethergrid.Domain.Scheduler.fit_score
select_node_run = refl
