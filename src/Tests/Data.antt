-- ===== src/Tests/Data.antt =====
-- A small cluster: one tenant, one node, one worker, one job.
use aethergrid.Base.{ℕ, ◌+◌, ◌*◌, ◌/◌, false, none, some, pos, [], ◌∷◌, ltb, ltb_irrefl, ltb_trans}
use aethergrid.Domain.Resources.{Resources}
use aethergrid.Domain.Job.{Job, JobStatus}
use aethergrid.Domain.Node.{Node}
use aethergrid.Domain.Worker.{Worker, WorkerStatus, WorkerManagement}
use aethergrid.Domain.Lease.{Lease}
use aethergrid.Domain.Scheduler.{Float}
use aethergrid.Store.{Db, WorkerRow}
use aethergrid.Service.Env.{Env}

abbrev pub small : Resources
small = record { cpu_cores = 2; memory_mib = 512; vram_mib = 0 }

abbrev pub large : Resources
large = record { cpu_cores = 8; memory_mib = 4096; vram_mib = 0 }

abbrev pub queued_job : Job
queued_job = record {
  id = 10;
  resources = small;
  tenant_id = 1;
  priority = pos 0;
  constraints = ("zone", "a") ∷ [];
  max_retries = 1;
  retry_count = 0;
  execution_timeout = 3600000000;
  status = JobStatus.queued;
  assigned_node_id = none;
  submitted_at = 5;
  started_at = none;
  completed_at = none;
  cancellation_requested_at = none;
  command = none;
  exit_code = none;
}

abbrev pub scheduled_job : Job
scheduled_job = record queued_job { status = JobStatus.scheduled; assigned_node_id = some 20 }

abbrev pub running_job : Job
running_job = record scheduled_job { status = JobStatus.running; started_at = some 7 }

abbrev pub free_node : Node
free_node = record {
  id = 20;
  capacity = large;
  tenant_id = 1;
  name = "rack-one";
  labels = ("zone", "a") ∷ ("disk", "ssd") ∷ [];
  last_seen_at = 100;
  draining = false;
  available = large;
}

abbrev pub used_node : Node
used_node = record free_node {
  available = record { cpu_cores = 6; memory_mib = 3584; vram_mib = 0 };
}

abbrev pub worker_row : WorkerRow
worker_row = record {
  id = 30;
  node_id = 20;
  tenant_id = 1;
  status = WorkerStatus.busy;
  managed_by = WorkerManagement.agent;
  running_job_id = some 10;
  last_seen_at = 100;
}

abbrev pub idle_worker : Worker
idle_worker = record {
  id = 30;
  node = used_node;
  status = WorkerStatus.idle;
  managed_by = WorkerManagement.agent;
  running_job = none;
  last_seen_at = 100;
}

abbrev pub lease : Lease
lease = record {
  id = 40;
  worker_id = 30;
  job_id = 10;
  tenant_id = 1;
  acquired_at = 7;
  expires_at = 30000007;
}

-- The job runs on the node, under a lease.
abbrev pub busy : Db
busy = record {
  jobs = running_job ∷ [];
  nodes = used_node ∷ [];
  workers = worker_row ∷ [];
  leases = lease ∷ [];
  events = [];
}

abbrev pub env : Env
env = record { now = 200; fresh = λ k. 1000 + k; names = λ id. "swift-falcon-3f2a" }

-- Scores in thousandths stand for floats.
abbrev pub thousandths : Float
thousandths = record {
  Num = ℕ;
  zero = 0;
  add = λ a b. a + b;
  ratio = λ a b. (1000 * a) / b;
  lt = ltb;
  lt_irrefl = ltb_irrefl;
  lt_trans = ltb_trans;
}
