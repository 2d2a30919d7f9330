-- ===== src/Domain/Job/Lifecycle.antt =====
-- The state machine of app/domain/entities/job.py: which method is legal in which status, and what a
-- history of calls can do to a job.
use aethergrid.Base.{
  ℕ, ◌≡◌, Bool, true, false, Option, ℤ, List, [], ◌∷◌, arith, Error, ok, raise, value_error,
  invalid_job_transition, Action, if◌then◌else◌,
}
use aethergrid.Domain.Resources.{Time}
use aethergrid.Domain.Job.{
  Job, JobStatus, submitted, queued, scheduled, running, cancelling, completed, failed, cancelled,
  can_retry, queue, assign_to, unschedule, start, complete, fail, cancel, request_cancellation,
  confirm_cancelled, retry, reclaim,
}

-- The methods of `class Job` that change the status, with their arguments and the clock they read.
pub data Op : Type 0 where
  queues unschedules cancels retries : Op
  assigns : (node_id : ℕ) → Op
  starts requests_cancellation reclaims : (now : Time) → Op
  completes fails confirms_cancelled : (exit_code : Option ℤ) (now : Time) → Op

unfoldable pub apply : Op → Action Job (Unit {0})
unfolding queue assign_to unschedule start complete fail cancel request_cancellation
    confirm_cancelled retry reclaim
apply queues = queue
apply (assigns node_id) = assign_to node_id
apply unschedules = unschedule
apply (starts now) = start now
apply (completes exit_code now) = complete exit_code now
apply (fails exit_code now) = fail exit_code now
apply cancels = cancel
apply (requests_cancellation now) = request_cancellation now
apply (confirms_cancelled exit_code now) = confirm_cancelled exit_code now
apply retries = retry
apply (reclaims now) = reclaim now

-- The specification: the statuses in which each method is legal. A retry is legal only while
-- attempts are left.
abbrev pub legal : Op → JobStatus → (retries_left : Bool) → Bool
legal queues submitted _ = true
legal queues running _ = true
legal queues scheduled _ = true
legal queues failed _ = true
legal (assigns _) queued _ = true
legal unschedules scheduled _ = true
legal (starts _) scheduled _ = true
legal (completes _ _) running _ = true
legal (completes _ _) cancelling _ = true
legal (fails _ _) scheduled _ = true
legal (fails _ _) running _ = true
legal (fails _ _) cancelling _ = true
legal cancels queued _ = true
legal cancels scheduled _ = true
legal cancels cancelling _ = true
legal (requests_cancellation _) running _ = true
legal (confirms_cancelled _ _) queued _ = true
legal (confirms_cancelled _ _) scheduled _ = true
legal (confirms_cancelled _ _) cancelling _ = true
legal retries failed left = left
legal (reclaims _) scheduled _ = true
legal (reclaims _) running _ = true
legal (reclaims _) cancelling _ = true
legal _ _ _ = false

-- The status that a legal call leads to.
abbrev pub target : Op → JobStatus → (retries_left : Bool) → JobStatus
target queues _ _ = queued
target (assigns _) _ _ = scheduled
target unschedules _ _ = queued
target (starts _) _ _ = running
target (completes _ _) _ _ = completed
target (fails _ _) _ _ = failed
target cancels _ _ = cancelled
target (requests_cancellation _) _ _ = cancelling
target (confirms_cancelled _ _) _ _ = cancelled
target retries _ _ = queued
target (reclaims _) cancelling _ = cancelled
target (reclaims _) _ true = queued
target (reclaims _) _ false = failed

-- What an illegal call raises: a failed job with no attempt left has a ValueError of its own.
abbrev pub refusal : Op → JobStatus → Error
refusal retries failed = value_error
refusal _ _ = invalid_job_transition

abbrev pub Outcome : Op → Job → Type 0
Outcome op job =
    let (r, job') = apply op job in
    if legal op job.status (can_retry job)
    then (r ≡ ok tt) × (job'.status ≡ target op job.status (can_retry job))
    else (r ≡ raise (refusal op job.status)) × (job'.status ≡ job.status)

-- Every method on every status: where the table calls it legal it returns and leads to the target
-- status, and anywhere else it raises the stated exception and leaves the status as it was.
pub apply-Outcome : (op : Op) (job : Job) → Outcome op job
unfolding apply can_retry
apply-Outcome queues job = ground arith
apply-Outcome op job = ground arith

-- A history of calls on one object. A call that raises may have changed other attributes.
unfoldable pub run : List Op → Job → Job
run [] job = job
run (op ∷ ops) job = run ops (apply op job).1

-- What no method may change.
pub record SameJob (job job' : Job) : Type 0 where
  pub id : job'.id ≡ job.id
  pub tenant : job'.tenant_id ≡ job.tenant_id
  pub resources : job'.resources ≡ job.resources
  pub max_retries : job'.max_retries ≡ job.max_retries
  pub command : job'.command ≡ job.command
  pub submitted_at : job'.submitted_at ≡ job.submitted_at

pub apply-SameJob : (op : Op) (job : Job) → SameJob job (apply op job).1
unfolding apply
apply-SameJob queues job = ground arith
apply-SameJob op job = ground arith

-- No history of calls, refused ones included, moves a job to another tenant or changes its
-- identifier, the resources it asks for, its command, its submission time or its number of retries.
pub run-SameJob : (ops : List Op) (job : Job) → SameJob job (run ops job)
unfolding run
run-SameJob [] job = ground arith
run-SameJob (op ∷ ops) job = ground (arith, apply-SameJob op job, run-SameJob ops (apply op job).1)

-- The statuses that a job never leaves.
abbrev pub is_final : JobStatus → Bool
is_final completed = true
is_final cancelled = true
is_final _ = false

apply-final :
    (op : Op) (job : Job) → is_final job.status ≡ true → (apply op job).1.status ≡ job.status
unfolding apply
apply-final queues job h = ground arith
apply-final op job h = ground arith

-- A completed or cancelled job keeps its status under every history of calls.
pub run-final :
    (ops : List Op) (job : Job) → is_final job.status ≡ true → (run ops job).status ≡ job.status
unfolding run
run-final [] job h = ground arith
run-final (op ∷ ops) job h = ground (arith, apply-final op job h, run-final ops (apply op job).1)
