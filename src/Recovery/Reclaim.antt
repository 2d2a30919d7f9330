-- ===== src/Recovery/Reclaim.antt =====
-- `reclaim_job` of app/application/services/job_execution_support.py.
use aethergrid.Base.{
  Bool, true, false, not, Option, none, some, Action, ok, raise, invalid_job_transition, pure,
  throw, modify, when, ◌>>◌,
}
use aethergrid.Domain.Resources.{Time, Resources}
use aethergrid.Domain.Job
use aethergrid.Domain.Job.{Job}
use aethergrid.Domain.Node
use aethergrid.Domain.Node.{Node}
use aethergrid.Store.{Db}
use aethergrid.Store.Jobs
use aethergrid.Store.Nodes
use aethergrid.Store.Leases

-- The node, if there is one, gets the resources back.
unfoldable pub give_back : Resources → Option Node → Action Db (Unit {0})
give_back resources none = pure tt
give_back resources (some node) = Nodes.save (Node.release resources node)

-- The `try` statement: whether the job was reclaimed, and the job as it then is.
unfoldable pub try_reclaim : Time → Job → Action Db (Bool × Job)
try_reclaim now job =
    let (r, job') = Job.reclaim now job in
    elim r [
      | ok _ ↦ do Jobs.save job'; pure (true, job')
      | raise invalid_job_transition ↦ pure (false, job')
      | raise e ↦ throw e
    ]

unfoldable pub reclaim_job :
    Time → Job → Option Node → (lease_already_deleted : Bool) → Action Db (Bool × Job)
unfolding give_back try_reclaim
reclaim_job now job node lease_already_deleted = do
  when (not lease_already_deleted) (modify (Leases.delete job.id job.tenant_id))
  give_back job.resources node
  try_reclaim now job
