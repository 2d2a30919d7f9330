-- ===== src/Domain/Worker.antt =====
-- app/domain/entities/worker.py and the enums of a worker. A worker shares the `Job` object that it
-- runs with whoever holds a reference to it, so a method that changes the job and then forgets it
-- returns the job as it has become.
use aethergrid.Base.{
  ℕ, ◌+◌, Bool, not, Option, none, some, ℤ, leb, ◌==◌, ◌&&◌, holds, is_some, if◌then◌else◌, Action,
  ok, raise, value_error, throw_if, gets, modify, ◌>>=◌, ◌>>◌,
}
use aethergrid.Domain.Resources.{Time, Duration, seconds}
use aethergrid.Domain.Job
use aethergrid.Domain.Job.{Job}
use aethergrid.Domain.Node.{Node}

abbrev pub heartbeat_timeout : Duration
heartbeat_timeout = seconds 60

pub data WorkerStatus : Type 0 where
  starting idle busy draining offline : WorkerStatus

pub data WorkerManagement : Type 0 where
  dashboard agent : WorkerManagement

unfoldable pub index : WorkerStatus → ℕ
index starting = 0
index idle = 1
index busy = 2
index draining = 3
index offline = 4

pub record Worker : Type 0 where
  pub id : ℕ
  pub node : Node
  pub status : WorkerStatus
  pub managed_by : WorkerManagement
  pub running_job : Option Job
  pub last_seen_at : Time

-- `Worker(id=…, node=…, managed_by=…)`
unfoldable pub create : ℕ → Node → WorkerManagement → Time → Worker
create id node managed_by now = record {
  id = id;
  node = node;
  status = starting;
  managed_by = managed_by;
  running_job = none;
  last_seen_at = now;
}

unfoldable pub is_idle : Worker → Bool
unfolding index
is_idle worker = index worker.status == index idle

unfoldable pub is_offline : Worker → Bool
unfolding index
is_offline worker = index worker.status == index offline

unfoldable pub heartbeat : Time → Worker → Worker
unfolding is_offline
heartbeat now worker =
    if is_offline worker && not (is_some worker.running_job)
    then record worker { last_seen_at = now; status = idle }
    else record worker { last_seen_at = now }

unfoldable pub is_alive : Time → Worker → Bool
is_alive now worker = leb now (worker.last_seen_at + heartbeat_timeout)

abbrev pub tenant_id : Worker → ℕ
tenant_id worker = worker.node.tenant_id

unfoldable pub belongs_to : ℕ → Worker → Bool
belongs_to tenant worker = tenant_id worker == tenant

unfoldable pub ready : Worker → Worker
ready worker = record worker { status = idle }

unfoldable pub recover : Worker → Worker
recover worker = record worker { running_job = none; status = idle }

unfoldable pub accept : Job → Action Worker (Unit {0})
unfolding is_idle
accept job = do
  throw_if (not (← gets is_idle)) value_error
  throw_if (not (← gets (λ worker. holds job.assigned_node_id worker.node.id))) value_error
  modify (λ worker. record worker { running_job = some job; status = busy })

unfoldable pub start : Time → Action Worker (Unit {0})
start now worker = elim worker.running_job [
  | none ↦ (raise value_error, worker)
  | some job ↦ let (r, job') = Job.start now job in (r, record worker { running_job = some job' })
]

-- The shape that `complete`, `fail` and `cancel_job` share.
unfoldable pub finish : Action Job (Unit {0}) → Action Worker Job
finish outcome worker = elim worker.running_job [
  | none ↦ (raise value_error, worker)
  | some job ↦
      let (r, job') = outcome job in
      elim r [
        | ok _ ↦ (ok job', record worker { running_job = none; status = idle })
        | raise e ↦ (raise e, record worker { running_job = some job' })
      ]
]

unfoldable pub complete : Option ℤ → Time → Action Worker Job
unfolding finish
complete exit_code now = finish (Job.complete exit_code now)

unfoldable pub fail : Option ℤ → Time → Action Worker Job
unfolding finish
fail exit_code now = finish (Job.fail exit_code now)

unfoldable pub cancel_job : Option ℤ → Time → Action Worker Job
unfolding finish
cancel_job exit_code now = finish (Job.confirm_cancelled exit_code now)

unfoldable pub drain : Worker → Worker
drain worker = record worker { status = draining }

unfoldable pub go_offline : Worker → Worker
go_offline worker = record worker { status = offline }
