-- ===== src/Tests/Entities.antt =====
-- Jobs and nodes.
use aethergrid.Base.{◌+◌, ◌≤◌, ◌≡◌, refl, none, some, pos, [], ◌∷◌, arith, ok}
use aethergrid.Domain.Job.{JobStatus}
use aethergrid.Domain.Job.Lifecycle.{Op, Outcome, apply, apply-Outcome}
use aethergrid.Domain.Job.Retries.{executions, executions-le_max_retries}
use aethergrid.Domain.Node.{allocate, release}
use aethergrid.Domain.Node.Capacity.{release-allocate}
use aethergrid.Domain.Resources.{Resources}
use aethergrid.Store.Nodes
use aethergrid.Service.Cluster.{plus, total, cluster_capacity, cluster_utilization}
use aethergrid.Service.Cluster.Totals.{cluster_utilization-total}
use aethergrid.Tests.Data.{small, queued_job, scheduled_job, running_job, free_node, busy}

apply-Outcome_example : Outcome (Op.completes (some (pos 0)) 9) running_job
apply-Outcome_example = apply-Outcome (Op.completes (some (pos 0)) 9) running_job

executions-le_max_retries_example :
    executions
      (Op.assigns 20 ∷ Op.starts 6 ∷ Op.reclaims 8 ∷ Op.assigns 20 ∷ Op.starts 9 ∷ [])
      queued_job
    ≤ 1 + 1
executions-le_max_retries_example =
    executions-le_max_retries
      (Op.assigns 20 ∷ Op.starts 6 ∷ Op.reclaims 8 ∷ Op.assigns 20 ∷ Op.starts 9 ∷ []) queued_job
      (refl, (refl, (refl, (refl, (refl, tt))))) refl

-- The job of that history is executed twice.
executions_run :
    executions
      (Op.assigns 20 ∷ Op.starts 6 ∷ Op.reclaims 8 ∷ Op.assigns 20 ∷ Op.starts 9 ∷ [])
      queued_job
    ≡ 2
unfolding executions apply
executions_run = refl

-- A job that was never asked to stop, and has not even started, can be reported as cancelled.
confirm_scheduled :
    (apply (Op.confirms_cancelled none 9) scheduled_job).1.status ≡ JobStatus.cancelled
unfolding apply
confirm_scheduled = refl

release-allocate_example : release small (allocate small free_node).1 ≡ free_node
release-allocate_example = release-allocate small free_node (omega arith) (omega arith)

cluster_utilization-total_example :
    (used : Resources) × (cluster_utilization 1 busy ≡ ok used)
    × (plus (cluster_capacity 1 busy) used ≡ total (λ node. node.capacity) (Nodes.list 1 busy))
cluster_utilization-total_example =
    cluster_utilization-total 1 busy
      (record { cpu = omega arith; memory = omega arith; vram = omega arith }, tt)
