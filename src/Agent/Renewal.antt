-- ===== src/Agent/Renewal.antt =====
-- `renew_lease` and `keep_lease_alive` of scripts/run_agent.py: the renewal thread of a job, on the clock of
-- the agent. What each round of the thread meets is a parameter.
pub mod Trust
use text.Mathlib.Text.{◌==◌ as str_eq}
use aethergrid.Base.{
  ℕ, suc, ◌+◌, ◌-◌, ◌/◌, min, Bool, true, false, not, ◌&&◌, ◌||◌, Option, none, some, List, [], ◌∷◌,
  String, leb, ◌==◌, if◌then◌else◌,
}
use aethergrid.Domain.Resources.{Time, Duration, seconds}
use aethergrid.Domain.Lease.{default_lease_duration}
use aethergrid.Agent.Retry.{
  HttpError, Answer, returned, raised, unreadable, Delay, lasting, endless, Number, read_body,
  Reply, failed, answered, read_reply, is_transient, retry_after_seconds, backoff_delay_seconds,
}

-- `DEFAULT_LEASE_DURATION.total_seconds() / 3`
abbrev pub renewal_interval : Duration
renewal_interval = seconds 10

abbrev pub lease_age_margin : Duration
lease_age_margin = seconds 5

abbrev pub lease_trust_window : Duration
lease_trust_window = default_lease_duration - lease_age_margin

-- `job_status` of a body: none where there is no running job.
abbrev pub JobStatus : Type 0
JobStatus = Option String

-- Whether the lease is still held, and the status of the job. The body is `none` where it is no JSON or lacks
-- the field.
unfoldable pub renew_lease : Reply (Option JobStatus) → Answer (Bool × Option String)
renew_lease (failed e) = raised e
renew_lease (answered status retry_after body) =
    if status == 409
    then returned (false, none)
    else elim (read_body (read_reply (answered status retry_after body))) [
      | returned job_status ↦ returned (true, job_status)
      | raised e ↦ raised e
      | unreadable ↦ unreadable
    ]

-- A round of the thread: how much later than asked it wakes up, what its request meets and how long that
-- takes, and the draw of a back-off.
pub record Round : Type 0 where
  pub late : Duration
  pub took : Duration
  pub reply : Reply (Option JobStatus)
  pub draw : Duration → Duration

-- The variables of the thread, with the clock, and whether `cancel_event` is set.
pub record Keeper : Type 0 where
  pub now : Time
  pub last_confirmed_at : Time
  pub wait : Duration
  pub attempt : ℕ
  pub cancel_event : Bool

-- The thread waits, or it has set `lost_lease` and ended, with the variables as they were before the round; or an
-- exception that it does not catch has ended it, and nothing learns of it.
pub data Thread : Type 0 where
  waits : Keeper → Thread
  lost : (before : Keeper) (at : Time) → Thread
  died : (before : Keeper) → Thread

abbrev pub trust_deadline : Keeper → Time
trust_deadline k = k.last_confirmed_at + lease_trust_window

abbrev pub attempted_at : Round → Keeper → Time
attempted_at round k = k.now + k.wait + round.late

abbrev pub answered_at : Round → Keeper → Time
answered_at round k = attempted_at round k + round.took

-- `job_status == "CANCELLING"`
abbrev pub is_cancelling_status : Option String → Bool
is_cancelling_status none = false
is_cancelling_status (some status) = str_eq status "CANCELLING"

-- `min` of a back-off and what is left of the window.
abbrev pub cut : Delay → Duration → Duration
cut (lasting d) left = min d left
cut endless left = left

module _ (float : String → Option Number) where
  -- The `except` branch.
  unfoldable pub after_failure : Round → Keeper → HttpError → Thread
  after_failure round k e =
      let now : Time = answered_at round k in
      if not (is_transient e) || leb (trust_deadline k) now
      then lost k now
      else waits (record k {
        now = now;
        wait =
            cut (backoff_delay_seconds round.draw k.attempt (retry_after_seconds float e))
              (trust_deadline k - now);
        attempt = suc k.attempt;
      })

  -- The rest of a round, behind a renewal that returned.
  unfoldable pub after_renewal : Round → Keeper → Bool × Option String → Thread
  after_renewal round k (lease_ok, job_status) =
      if not lease_ok
      then lost k (answered_at round k)
      else waits (record {
        now = answered_at round k;
        last_confirmed_at = attempted_at round k;
        wait = renewal_interval;
        attempt = 0;
        cancel_event = k.cancel_event || is_cancelling_status job_status;
      })

  unfoldable pub do_round : Round → Keeper → Thread
  unfolding renew_lease after_failure after_renewal
  do_round round k = elim (renew_lease round.reply) [
    | raised e ↦ after_failure round k e
    | returned answer ↦ after_renewal round k answer
    | unreadable ↦ died k
  ]

  -- `keep_lease_alive` for as many rounds as it has before `stop_renewing` is set.
  unfoldable pub keep_lease_alive : List Round → Keeper → Thread
  unfolding do_round
  keep_lease_alive [] k = waits k
  keep_lease_alive (round ∷ rounds) k = elim (do_round round k) [
    | waits k' ↦ keep_lease_alive rounds k'
    | lost before at ↦ lost before at
    | died before ↦ died before
  ]

-- The variables at the start of the thread.
abbrev pub start_keeper : Time → Keeper
start_keeper now = record {
  now = now;
  last_confirmed_at = now;
  wait = renewal_interval;
  attempt = 0;
  cancel_event = false;
}
