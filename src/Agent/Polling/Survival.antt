-- ===== src/Agent/Polling/Survival.antt =====
-- Which failures end the agent.
use aethergrid.Base.{◌≡◌, false, Option, none, some}
use aethergrid.Domain.Resources.{Duration}
use aethergrid.Agent.Retry.{End, ended, overflow, sleep, raised, is_transient}
use aethergrid.Agent.Polling.{
  Failure, bad_body, overflow_error, http, agent_error, host_fault, Progress, stops,
}

-- A failure that the agent does not retry: an HTTP error that is not transient, a body that it cannot read, a
-- delay that `time.sleep` refuses, or a fault of the host.
abbrev pub IsFinal : (longest : Duration) → Failure → Type 0
IsFinal longest (http e) = is_transient e ≡ false
IsFinal longest (agent_error e) = is_transient e ≡ false
IsFinal longest bad_body = Unit
IsFinal longest (overflow_error d) = sleep longest d ≡ none
IsFinal longest host_fault = Unit

-- Where it stops, it does so by a final failure.
abbrev pub StopsFinally : {A : Type 0} → (longest : Duration) → Progress A → Type 0
StopsFinally longest (stops f) = IsFinal longest f
StopsFinally longest _ = Unit

-- Not stopped by a rejected registration, and by no other crash than a final one.
abbrev IsUnrejected : {A : Type 0} → (longest : Duration) → Progress A → Type 0
IsUnrejected longest (stops (agent_error _)) = ⊥
IsUnrejected longest (stops (overflow_error d)) = sleep longest d ≡ none
IsUnrejected longest _ = Unit

-- What a retried call returned or raised is no transient failure.
abbrev IsSettled : {A : Type 0} → (longest : Duration) → Option (End A) → Type 0
IsSettled longest (some (ended (raised e))) = is_transient e ≡ false
IsSettled longest (some (overflow d)) = sleep longest d ≡ none
IsSettled longest _ = Unit
