-- ===== src/Domain/Job.antt =====
-- app/domain/entities/job.py and app/domain/enums/job_status.py: the job and its state machine. A
-- method returns what it raised and the object as it then is: an attribute that was assigned before
-- the transition was refused stays assigned.

pub mod Lifecycle
pub mod Retries
use aethergrid.Base.{
  Result, ℕ, ◌+◌, String, Bool, false, not, ◌||◌, Option, none, some, List, [], ◌∷◌, ℤ, ltb, leb,
  ◌==◌, if◌then◌else◌, any, Action, value_error, invalid_job_transition, pure, throw_if, gets,
  modify, ◌>>=◌, ◌>>◌,
}
use aethergrid.Domain.Resources.{Time, Duration, Resources, seconds}

pub data JobStatus : Type 0 where
  submitted queued scheduled running cancelling completed failed cancelled : JobStatus

-- Members of an enum are told apart by identity.
unfoldable pub index : JobStatus → ℕ
index submitted = 0
index queued = 1
index scheduled = 2
index running = 3
index cancelling = 4
index completed = 5
index failed = 6
index cancelled = 7

unfoldable pub has_status : JobStatus → JobStatus → Bool
unfolding index
has_status s t = index s == index t

-- `JobStatus.is_terminal`
unfoldable pub is_terminal : JobStatus → Bool
unfolding has_status
is_terminal s = any (has_status s) (completed ∷ failed ∷ cancelled ∷ [])

pub record Job : Type 0 where
  pub id : ℕ
  pub resources : Resources
  pub tenant_id : ℕ
  pub priority : ℤ
  pub constraints : List (String × String)
  pub max_retries : ℕ
  pub retry_count : ℕ
  pub execution_timeout : Duration
  pub status : JobStatus
  pub assigned_node_id : Option ℕ
  pub submitted_at : Time
  pub started_at : Option Time
  pub completed_at : Option Time
  pub cancellation_requested_at : Option Time
  pub command : Option (List String)
  pub exit_code : Option ℤ

abbrev pub default_execution_timeout : Duration
default_execution_timeout = seconds 3600

-- `Job(id=…, resources=…, tenant_id=…, command=…)`: the defaults and `__post_init__`.
unfoldable pub create :
    {S : Type 0} → ℕ → Resources → ℕ → Option (List String) → Time → Action S Job
create id resources tenant_id command now = do
  throw_if (leb resources.cpu_cores 0) value_error
  throw_if (leb resources.memory_mib 0) value_error
  pure (record {
    id = id;
    resources = resources;
    tenant_id = tenant_id;
    priority = ℤ.pos 0;
    constraints = [];
    max_retries = 0;
    retry_count = 0;
    execution_timeout = default_execution_timeout;
    status = submitted;
    assigned_node_id = none;
    submitted_at = now;
    started_at = none;
    completed_at = none;
    cancellation_requested_at = none;
    command = command;
    exit_code = none;
  })

-- `_ALLOWED_TRANSITIONS`
unfoldable pub allowed_transitions : JobStatus → List JobStatus
allowed_transitions submitted = queued ∷ []
allowed_transitions queued = scheduled ∷ cancelled ∷ []
allowed_transitions scheduled = running ∷ cancelled ∷ queued ∷ failed ∷ []
allowed_transitions running = completed ∷ failed ∷ queued ∷ cancelling ∷ []
allowed_transitions cancelling = completed ∷ failed ∷ cancelled ∷ []
allowed_transitions completed = []
allowed_transitions failed = queued ∷ []
allowed_transitions cancelled = []

unfoldable pub transition_to : JobStatus → Action Job (Unit {0})
unfolding allowed_transitions has_status
transition_to new_status job =
    if any (has_status new_status) (allowed_transitions job.status)
    then (Result.ok tt, record job { status = new_status })
    else (Result.raise invalid_job_transition, job)

unfoldable pub is_queued : Job → Bool
unfolding has_status
is_queued job = has_status job.status queued

unfoldable pub is_scheduled : Job → Bool
unfolding has_status
is_scheduled job = has_status job.status scheduled

unfoldable pub is_running : Job → Bool
unfolding has_status
is_running job = has_status job.status running

unfoldable pub is_failed : Job → Bool
unfolding has_status
is_failed job = has_status job.status failed

unfoldable pub is_cancelling : Job → Bool
unfolding has_status
is_cancelling job = has_status job.status cancelling

-- `utc_now() - started_at >= execution_timeout`, with the subtraction moved to the other side.
unfoldable pub has_timed_out : Time → Job → Bool
has_timed_out now job = elim job.started_at [
  | none ↦ false
  | some started ↦ leb (started + job.execution_timeout) now
]

unfoldable pub queue : Action Job (Unit {0})
unfolding transition_to
queue = transition_to queued

unfoldable pub assign_to : ℕ → Action Job (Unit {0})
unfolding transition_to
assign_to node_id = do
  modify (λ job. record job { assigned_node_id = some node_id })
  transition_to scheduled

unfoldable pub unschedule : Action Job (Unit {0})
unfolding transition_to is_scheduled
unschedule = do
  throw_if (not (← gets is_scheduled)) invalid_job_transition
  modify (λ job. record job { assigned_node_id = none })
  transition_to queued

unfoldable pub start : Time → Action Job (Unit {0})
unfolding transition_to
start now = do modify (λ job. record job { started_at = some now }); transition_to running

unfoldable pub complete : Option ℤ → Time → Action Job (Unit {0})
unfolding transition_to
complete exit_code now = do
  modify (λ job. record job { completed_at = some now; exit_code = exit_code })
  transition_to completed

unfoldable pub fail : Option ℤ → Time → Action Job (Unit {0})
unfolding transition_to
fail exit_code now = do
  modify (λ job. record job { completed_at = some now; exit_code = exit_code })
  transition_to failed

unfoldable pub cancel : Action Job (Unit {0})
unfolding transition_to
cancel = transition_to cancelled

unfoldable pub request_cancellation : Time → Action Job (Unit {0})
unfolding transition_to
request_cancellation now = do
  modify (λ job. record job { cancellation_requested_at = some now })
  transition_to cancelling

unfoldable pub confirm_cancelled : Option ℤ → Time → Action Job (Unit {0})
unfolding transition_to
confirm_cancelled exit_code now = do
  modify (λ job. record job { completed_at = some now; exit_code = exit_code })
  transition_to cancelled

unfoldable pub can_retry : Job → Bool
can_retry job = ltb job.retry_count job.max_retries

unfoldable pub record_retry : Action Job (Unit {0})
unfolding can_retry
record_retry = do
  throw_if (not (← gets can_retry)) value_error
  modify (λ job. record job { retry_count = job.retry_count + 1 })

unfoldable pub retry : Action Job (Unit {0})
unfolding transition_to is_failed record_retry
retry = do
  throw_if (not (← gets is_failed)) invalid_job_transition
  record_retry
  modify (λ job. record job {
    assigned_node_id = none;
    started_at = none;
    completed_at = none;
    exit_code = none;
    cancellation_requested_at = none;
  })
  transition_to queued

-- The two early returns of `reclaim`: the job ends, off its node.
unfoldable pub abandon_as : JobStatus → Time → Action Job (Unit {0})
unfolding transition_to
abandon_as status now = do
  modify (λ job. record job { assigned_node_id = none; completed_at = some now })
  transition_to status

-- The rest of `reclaim`, for a job that is scheduled or running and has a retry left.
unfoldable pub requeue : Action Job (Unit {0})
unfolding transition_to record_retry
requeue = do
  record_retry
  modify (λ job. record job {
    assigned_node_id = none;
    started_at = none;
    completed_at = none;
    exit_code = none;
  })
  transition_to queued

unfoldable pub reclaim : Time → Action Job (Unit {0})
unfolding abandon_as requeue is_cancelling is_scheduled is_running can_retry
reclaim now job =
    if is_cancelling job
    then abandon_as cancelled now job
    else if not (is_scheduled job || is_running job)
    then (Result.raise invalid_job_transition, job)
    else if not (can_retry job)
    then abandon_as failed now job
    else requeue job
