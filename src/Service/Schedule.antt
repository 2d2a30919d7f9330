-- ===== src/Service/Schedule.antt =====
-- app/application/services/scheduler_loop_service.py: queued jobs, in order of priority, onto nodes.
-- The loop keeps the nodes that it read in a list of its own and changes them there.
use aethergrid.Base.{
  ℕ, suc, none, some, List, [], ◌∷◌, ltb_ℤ, if◌then◌else◌, filter, Action, ok, raise,
  no_available_node, pure, gets, of_result, mutate, ◌>>=◌, ◌>>◌,
}
use aethergrid.Domain.Job
use aethergrid.Domain.Job.{Job, is_queued}
use aethergrid.Domain.Node
use aethergrid.Domain.Node.{Node}
use aethergrid.Domain.Event.{job_scheduled, job_unscheduled}
use aethergrid.Domain.Scheduler.{Float, select_node}
use aethergrid.Store.{Db, upsert}
use aethergrid.Store.Jobs
use aethergrid.Store.Nodes
use aethergrid.Store.Events
use aethergrid.Service.Env.{Env}
use aethergrid.Service.Assign.{assign_worker}

-- `sorted(…, key=priority, reverse=True)`, which keeps the order of equals.
unfoldable pub insert_by_priority : Job → List Job → List Job
insert_by_priority job [] = job ∷ []
insert_by_priority job (j ∷ js) =
    if ltb_ℤ job.priority j.priority then j ∷ insert_by_priority job js else job ∷ j ∷ js

unfoldable pub by_priority : List Job → List Job
unfolding insert_by_priority
by_priority [] = []
by_priority (job ∷ jobs) = insert_by_priority job (by_priority jobs)

-- `except NoAvailableNodeError`
abbrev pub if_no_node : {A B : Type 0} → Action Db A → B → Action Db B → Action Db B
if_no_node m b handler db =
    let (r, db') = m db in
    elim r [ ok _ ↦ (ok b, db') | raise no_available_node ↦ handler db' | raise e ↦ (raise e, db') ]

-- The handler: the job goes back to the queue and the node gets its resources back.
unfoldable pub undo : Env → Job → Node → Action Db Node
undo env job node = do
  job' ← mutate Job.unschedule job
  let node' = Node.release job.resources node
  Nodes.save node'
  Jobs.save job'
  Events.record_for_job (env.fresh 4) job' job_unscheduled env.now
  pure node'

-- The rest of the loop's body, for the node that was selected. Returns the node as it then is.
unfoldable pub place : Env → Job → Node → Action Db Node
place env job node = do
  node' ← mutate (Node.allocate job.resources) node
  job' ← mutate (Job.assign_to node.id) job
  Nodes.save node'
  Jobs.save job'
  Events.record_for_job (env.fresh 3) job' job_scheduled env.now
  if_no_node (assign_worker env job') node' (undo env job' node')

module _ (F : Float) where
  unfoldable pub schedule_job : Env → Job → List Node → Action Db (List Node)
  schedule_job env job nodes = do
    choice ← of_result (select_node F job nodes env.now)
    elim choice [
      | none ↦ pure nodes
      | some node ↦ do node' ← place env job node; pure (upsert (λ n. n.id) node' nodes)
    ]

  -- `envs` has what each round of the loop takes from outside.
  unfoldable pub schedule_jobs : (envs : ℕ → Env) → List Job → List Node → Action Db (Unit {0})
  schedule_jobs envs [] nodes = pure tt
  schedule_jobs envs (job ∷ jobs) nodes = do
    nodes' ← schedule_job (envs 0) job nodes
    schedule_jobs (λ k. envs (suc k)) jobs nodes'

  -- `SchedulerLoopService.execute`
  unfoldable pub schedule_all : (envs : ℕ → Env) → Action Db (Unit {0})
  unfolding by_priority schedule_jobs
  schedule_all envs = do
    nodes ← gets (Nodes.list_available_across_tenants (envs 0).now)
    jobs ← gets (λ db. by_priority (filter is_queued (Jobs.list_across_tenants db)))
    schedule_jobs envs jobs nodes
