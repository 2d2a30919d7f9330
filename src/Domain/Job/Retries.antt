-- ===== src/Domain/Job/Retries.antt =====
-- The retry accounting of app/domain/entities/job.py over a history of calls.
use aethergrid.Base.{
  ℕ, suc, ◌+◌, ◌≤◌, ◌≡◌, Bool, true, false, List, [], ◌∷◌, arith, All, if◌then◌else◌,
}
use aethergrid.Domain.Job.{Job, JobStatus, submitted, queued, scheduled}
use aethergrid.Domain.Job.Lifecycle.{Op, queues, starts, apply, run}

-- `Job.queue` puts a job back with no retry consumed: the services call it on a new job only.
abbrev pub is_accounted : Op → Bool
is_accounted queues = false
is_accounted _ = true

-- Whether a call begins an execution: a `start` that is not refused.
abbrev pub begins : Op → JobStatus → Bool
begins (starts _) scheduled = true
begins _ _ = false

-- The executions that a history begins.
unfoldable pub executions : List Op → Job → ℕ
executions [] job = 0
executions (op ∷ ops) job =
    let rest = executions ops (apply op job).1 in if begins op job.status then suc rest else rest

-- The executions that a job's record accounts for: one for each retry consumed, and one for the
-- attempt in progress or just ended.
abbrev pub in_attempt : JobStatus → ℕ
in_attempt submitted = 0
in_attempt queued = 0
in_attempt scheduled = 0
in_attempt _ = 1

apply-begins :
    (op : Op) (job : Job)
    → is_accounted op ≡ true
    → (if begins op job.status then 1 else 0) + (job.retry_count + in_attempt job.status)
      ≤ (apply op job).1.retry_count + in_attempt (apply op job).1.status
unfolding apply
apply-begins queues job h = ground arith
apply-begins op job h = ground arith

executions-le_record :
    (ops : List Op) (job : Job)
    → All (λ op. is_accounted op ≡ true) ops
    → executions ops job + (job.retry_count + in_attempt job.status)
      ≤ (run ops job).retry_count + in_attempt (run ops job).status
unfolding executions run
executions-le_record [] job h = ground arith
executions-le_record (op ∷ ops) job h =
    ground (arith, apply-begins op job h.0, executions-le_record ops (apply op job).1 h.1)

apply-retry_count-le :
    (op : Op) (job : Job)
    → job.retry_count ≤ job.max_retries
    → ((apply op job).1.retry_count ≤ job.max_retries)
      × ((apply op job).1.max_retries ≡ job.max_retries)
unfolding apply
apply-retry_count-le queues job h = ground arith
apply-retry_count-le op job h = ground arith

-- No history of calls, refused ones included, consumes more retries than the job was given.
pub run-retry_count-le :
    (ops : List Op) (job : Job)
    → job.retry_count ≤ job.max_retries
    → (run ops job).retry_count ≤ job.max_retries
unfolding run
run-retry_count-le [] job h = h
run-retry_count-le (op ∷ ops) job h =
    ground (arith, apply-retry_count-le op job h, run-retry_count-le ops (apply op job).1)

-- A job with no retry consumed is executed at most `max_retries + 1` times under every history of
-- calls in which nothing but `retry`, `reclaim` and `unschedule` puts it back in the queue.
pub executions-le_max_retries :
    (ops : List Op) (job : Job)
    → All (λ op. is_accounted op ≡ true) ops
    → job.retry_count ≡ 0
    → executions ops job ≤ job.max_retries + 1
executions-le_max_retries ops job h fresh =
    ground (arith, executions-le_record ops job h, run-retry_count-le ops job)
