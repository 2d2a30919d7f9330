-- ===== src/Tests/Agents.antt =====
-- The agent.
use aethergrid.Base.{ℕ, ◌≡◌, refl, Option, none, some, [], ◌∷◌, String, pos, List, arith}
use aethergrid.Agent.Retry.{
  Number, finite, infinity, overflow, endless, ended, sleep, Answer, returned, raised, failed,
  answered, status_error, transport_error, call_with_retry, is_transient, backoff_delay_seconds,
  retry_after_seconds, read_reply,
}
use aethergrid.Agent.Retry.Delays.{Sleeps, EndsWith, call_with_retry-Retried}
use aethergrid.Agent.Renewal.{Round, Keeper, keep_lease_alive, renew_lease, start_keeper}
use aethergrid.Agent.Renewal.Trust.{
  IsTimely, IsFailing, IsLost, keep_lease_alive-IsTimely, keep_lease_alive-IsLost,
}
use aethergrid.Domain.Resources.{Duration}
use aethergrid.Execution.Process.{execute}
use aethergrid.Agent.Polling.{AssignedJob, Attempts, JobInputs, OutcomePath, Poll, Report, run_job}
use aethergrid.Agent.Polling.Reports.{Reported, run_job-Reported}
use aethergrid.Tests.Executions.{cancelled_at_2}

-- Every header is two seconds.
abbrev float : String → Option Number
float _ = some (finite (pos 2000000))

-- What `time.sleep` takes, in microseconds.
abbrev longest : Duration
longest = 9000000000000000

abbrev refused_once : List (Answer (Unit {0}))
refused_once = raised (status_error 429 (some "2")) ∷ returned tt ∷ []

call_with_retry-Retried_example :
    Sleeps float longest
      (λ _ c. c)
      refused_once
      (call_with_retry float longest (λ _ c. c) refused_once).slept
    × EndsWith float longest
        (λ _ c. c)
        refused_once
        (call_with_retry float longest (λ _ c. c) refused_once).slept
        (call_with_retry float longest (λ _ c. c) refused_once).answer
call_with_retry-Retried_example =
    call_with_retry-Retried float longest (λ _ c. c) (λ _ c. omega arith) (omega arith) refused_once

-- It sleeps the two seconds that the server asks for.
call_with_retry-refused_once :
    call_with_retry float longest (λ _ c. c) refused_once
    ≡ record { slept = 2000000 ∷ []; answer = some (ended (returned tt)) }
unfolding call_with_retry sleep is_transient backoff_delay_seconds retry_after_seconds
call_with_retry-refused_once = refl

-- An infinite header ends the call with OverflowError.
call_with_retry-endless :
    call_with_retry (λ _. some infinity) longest (λ _ c. c) refused_once
    ≡ record { slept = []; answer = some (overflow endless) }
unfolding call_with_retry sleep is_transient backoff_delay_seconds retry_after_seconds
call_with_retry-endless = refl

abbrev confirmed : Round
confirmed = record {
  late = 10;
  took = 90;
  reply = answered 200 none (some (some "RUNNING"));
  draw = λ c. c;
}

abbrev dropped : Round
dropped = record { late = 0; took = 1; reply = failed transport_error; draw = λ c. c }

keep_lease_alive-IsTimely_example :
    IsTimely (keep_lease_alive float (confirmed ∷ dropped ∷ []) (start_keeper 0))
keep_lease_alive-IsTimely_example =
    keep_lease_alive-IsTimely float (confirmed ∷ dropped ∷ []) (start_keeper 0)
      (omega arith, (omega arith, tt)) (tt, (tt, tt)) (omega arith)

-- Two microseconds before the end of the trust window.
abbrev waning : Keeper
waning = record (start_keeper 0) { now = 24999998; wait = 0; attempt = 3 }

dropped-IsFailing : IsFailing dropped
unfolding renew_lease
dropped-IsFailing = ((transport_error, refl), omega arith)

keep_lease_alive-IsLost_example : IsLost (keep_lease_alive float (dropped ∷ dropped ∷ []) waning)
keep_lease_alive-IsLost_example =
    keep_lease_alive-IsLost float (dropped ∷ dropped ∷ []) waning
      (dropped-IsFailing, (dropped-IsFailing, tt)) (omega arith) (omega arith)

abbrev assigned : AssignedJob
assigned = record { id = 10; command = some ("sleep" ∷ []); lease_id = 40; execution_timeout = 10 }

abbrev inputs : JobInputs
inputs = record {
  start = answered 200 none tt;
  started_at = 0;
  rounds = confirmed ∷ [];
  world = cancelled_at_2;
  report_replies = failed transport_error ∷ answered 409 none tt ∷ [];
  draws = λ _ c. c;
}

abbrev cancellation : Report
cancellation = record {
  worker_id = 30;
  job_id = 10;
  path = OutcomePath.cancel;
  exit_code = none;
  lease_id = 40;
}

run_job-cancellation : (run_job float longest 30 assigned inputs).report ≡ some cancellation
unfolding run_job read_reply execute keep_lease_alive
run_job-cancellation = refl

run_job-Reported_example : Reported float longest 30 assigned inputs cancellation
run_job-Reported_example =
    run_job-Reported float longest 30 assigned inputs cancellation run_job-cancellation

abbrev answers_30 : Attempts ℕ
answers_30 = record { answers = returned 30 ∷ []; draws = λ _ c. c }

abbrev beats : Attempts (Unit {0})
beats = record { answers = refused_once; draws = λ _ c. c }

abbrev poll : Poll
poll = record {
  polled = record { answers = returned (some assigned) ∷ []; draws = λ _ c. c };
  registered = answers_30;
  job_inputs = inputs;
}
