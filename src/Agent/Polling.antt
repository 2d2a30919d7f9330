-- ===== src/Agent/Polling.antt =====
-- `report_outcome`, `run_job` and `main` of scripts/run_agent.py. The command line, the texts that are printed,
-- Ctrl+C and the thread that sends heartbeats are left out.
pub mod Reports
pub mod Survival
use aethergrid.Base.{
  ℕ, ◌≡◌, Bool, true, false, ◌||◌, Option, none, some, List, [], ◌∷◌, map, String, ℤ, ◌==◌,
  if◌then◌else◌,
}
use aethergrid.Domain.Resources.{Time, Duration}
use aethergrid.Execution.Process.{JobExecutionResult, succeeded, Outcome, World, execute}
use aethergrid.Agent.Retry.{
  HttpError, status_error, Answer, returned, raised, unreadable, End, ended, overflow, Delay,
  Number, Reply, failed, answered, read_reply, is_transient, is_stale_view, call_with_retry,
}
use aethergrid.Agent.Renewal.{Round, Thread, waits, lost, died, keep_lease_alive, start_keeper}

-- How an end of the agent is brought about: an HTTP error that goes through `main`'s loop, a registration
-- that was rejected, a body that is no JSON or lacks a field, an OverflowError of `time.sleep`, or an exception of
-- the host while a command was started.
pub data Failure : Type 0 where
  http agent_error : HttpError → Failure
  bad_body : Failure
  overflow_error : Delay → Failure
  host_fault : Failure

-- A part of `main` that returned, that is still retrying a call, or that raised.
pub data Progress (A : Type 0) : Type 0 where
  done : A → Progress A
  hangs : Progress A
  stops : Failure → Progress A

abbrev pub and_then : {A B : Type 0} → Progress A → (A → Progress B) → Progress B
and_then (done a) f = f a
and_then hangs f = hangs
and_then (stops e) f = stops e

-- What the attempts of a retried call meet, and what is drawn for the waits between them.
pub record Attempts (A : Type 0) : Type 0 where
  pub answers : List (Answer A)
  pub draws : ℕ → Duration → Duration

-- The last path segment of a report.
pub data OutcomePath : Type 0 where
  cancel complete fail : OutcomePath

-- The request that reports an outcome.
pub record Report : Type 0 where
  pub worker_id : ℕ
  pub job_id : ℕ
  pub path : OutcomePath
  pub exit_code : Option ℤ
  pub lease_id : ℕ

-- `response.json()["running_job"]` of a poll.
pub record AssignedJob : Type 0 where
  pub id : ℕ
  pub command : Option (List String)
  pub lease_id : ℕ
  pub execution_timeout : Duration

unfoldable pub path_of : JobExecutionResult → OutcomePath
path_of result =
    if result.cancelled
    then OutcomePath.cancel
    else if succeeded result
    then OutcomePath.complete
    else OutcomePath.fail

-- `post_outcome`: a 409 is no failure.
unfoldable pub post_outcome : Reply (Unit {0}) → Answer (Unit {0})
post_outcome (failed e) = raised e
post_outcome (answered status retry_after body) =
    if status == 409 then returned tt else read_reply (answered status retry_after body)

-- What the execution of a job meets.
pub record JobInputs : Type 0 where
  pub start : Reply (Unit {0})
  pub started_at : Time
  pub rounds : List Round
  pub world : World
  pub report_replies : List (Reply (Unit {0}))
  pub draws : ℕ → Duration → Duration

-- The request of the report, where one was sent, and how `run_job` ended.
pub record JobRun : Type 0 where
  pub report : Option Report
  pub progress : Progress (Unit {0})

-- `lost_lease.is_set()`
abbrev pub is_lost : Thread → Bool
is_lost (waits _) = false
is_lost (lost _ _) = true
is_lost (died _) = false

-- An error of `run_job` that leads back to the poll loop.
abbrev pub is_interruption : HttpError → Bool
is_interruption e = is_transient e || is_stale_view e

-- The `except` of `register_with_retry`.
abbrev pub rejected : {A : Type 0} → Progress A → Progress A
rejected (stops (http (status_error status retry_after))) =
    stops (agent_error (status_error status retry_after))
rejected p = p

-- What a round of the loop of `main` meets.
pub record Poll : Type 0 where
  pub polled : Attempts (Option AssignedJob)
  pub registered : Attempts ℕ
  pub job_inputs : JobInputs

-- The `except` around `run_job`.
unfoldable pub hand_off : (worker_id : ℕ) → Progress (Unit {0}) → Progress ℕ
hand_off worker_id (done _) = done worker_id
hand_off worker_id hangs = hangs
hand_off worker_id (stops (http e)) = if is_interruption e then done worker_id else stops (http e)
hand_off worker_id (stops (agent_error e)) = stops (agent_error e)
hand_off worker_id (stops bad_body) = stops bad_body
hand_off worker_id (stops (overflow_error d)) = stops (overflow_error d)
hand_off worker_id (stops host_fault) = stops host_fault

module _ (float : String → Option Number) (longest : Duration) where
  -- `call_with_retry` as a part of `main`.
  unfoldable pub call : {A : Type 0} → Attempts A → Progress A
  call attempts = elim (call_with_retry float longest attempts.draws attempts.answers).answer [
    | none ↦ hangs
    | some (ended (returned a)) ↦ done a
    | some (ended (raised e)) ↦ stops (http e)
    | some (ended unreadable) ↦ stops bad_body
    | some (overflow delay) ↦ stops (overflow_error delay)
  ]

  unfoldable pub register_with_retry : Attempts ℕ → Progress ℕ
  register_with_retry attempts = rejected (call attempts)

  unfoldable pub report_outcome :
      (worker_id : ℕ) (job : AssignedJob) → JobExecutionResult → JobInputs → JobRun
  unfolding post_outcome path_of call
  report_outcome worker_id job result inputs = record {
    report = some (record {
      worker_id = worker_id;
      job_id = job.id;
      path = path_of result;
      exit_code = result.exit_code;
      lease_id = job.lease_id;
    });
    progress =
        call (record { answers = map post_outcome inputs.report_replies; draws = inputs.draws });
  }

  -- The part of `run_job` behind the execution of the command.
  unfoldable pub after_execution :
      (worker_id : ℕ) (job : AssignedJob) → (lease_lost : Bool) → Outcome → JobInputs → JobRun
  unfolding report_outcome
  after_execution worker_id job lease_lost (Outcome.raised _) inputs = record {
    report = none;
    progress = stops host_fault;
  }
  after_execution worker_id job lease_lost (Outcome.returned result) inputs =
      if result.lease_lost || lease_lost
      then record { report = none; progress = done tt }
      else report_outcome worker_id job result inputs

  unfoldable pub run_job : (worker_id : ℕ) (job : AssignedJob) → JobInputs → JobRun
  unfolding after_execution
  run_job worker_id job inputs = elim (read_reply inputs.start) [
    | raised e ↦ record { report = none; progress = stops (http e) }
    | unreadable ↦ record { report = none; progress = stops bad_body }
    | returned _ ↦ elim (execute inputs.world job.command job.execution_timeout) [
      | none ↦ record { report = none; progress = hangs }
      | some run ↦
          after_execution worker_id job
            (is_lost (keep_lease_alive float inputs.rounds (start_keeper inputs.started_at)))
            run.outcome inputs
    ]
  ]

  -- A round behind its poll: the identifier of the worker afterwards.
  unfoldable pub after_poll : Poll → (worker_id : ℕ) → Progress (Option AssignedJob) → Progress ℕ
  unfolding hand_off run_job register_with_retry
  after_poll poll worker_id (stops (http (status_error status retry_after))) =
      if status == 404
      then register_with_retry poll.registered
      else stops (http (status_error status retry_after))
  after_poll poll worker_id (stops e) = stops e
  after_poll poll worker_id hangs = hangs
  after_poll poll worker_id (done none) = done worker_id
  after_poll poll worker_id (done (some job)) =
      hand_off worker_id (run_job worker_id job poll.job_inputs).progress

  -- The loop of `main`.
  unfoldable pub poll_loop : List Poll → (worker_id : ℕ) → Progress ℕ
  unfolding after_poll call
  poll_loop [] worker_id = done worker_id
  poll_loop (poll ∷ polls) worker_id =
      and_then (after_poll poll worker_id (call poll.polled)) (poll_loop polls)

  unfoldable pub main :
      Attempts ℕ → (worker_beats node_beats : Attempts (Unit {0})) → List Poll → Progress ℕ
  unfolding poll_loop register_with_retry
  main registered worker_beats node_beats polls =
      and_then (register_with_retry registered) λ worker_id.
        and_then (call worker_beats) λ _. and_then (call node_beats) λ _. poll_loop polls worker_id

-- The exit code: none where the exception goes through `main`.
unfoldable pub exit_code : Failure → Option ℕ
exit_code (agent_error e) = some 1
exit_code (http (status_error _ _)) = some 1
exit_code _ = none
