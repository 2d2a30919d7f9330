-- ===== src/Execution/Process.antt =====
-- app/application/services/job_execution_service.py: a command is waited for in short slices, and ended
-- where it overruns, is cancelled or loses its lease. What the operating system answers is a parameter.
pub mod Stops
use text.Mathlib.Text.{◌==◌ as str_eq}
use aethergrid.Base.{
  ℕ, zero, suc, ◌+◌, ◌-◌, ℤ, pos, Bool, true, false, not, ◌&&◌, Option, none, some, List, [], ◌∷◌,
  ◌++◌, String, leb, if◌then◌else◌,
}
use aethergrid.Domain.Resources.{Time, Duration}

-- The exceptions that a launch raises: the three of `_LAUNCH_FAULTS`, and any other.
pub data FaultKind : Type 0 where
  file_not_found permission not_a_directory host_fault : FaultKind

pub record LaunchError : Type 0 where
  pub kind : FaultKind
  pub message : String

-- `isinstance(failure, _LAUNCH_FAULTS)`
abbrev pub is_launch_fault : FaultKind → Bool
is_launch_fault FaultKind.host_fault = false
is_launch_fault _ = true

-- The status pipe within a slice: nothing yet, or what it held when it was closed.
pub data StatusPipe : Type 0 where
  silent : StatusPipe
  closed : (text : String) → StatusPipe

pub data Launch : Type 0 where
  pending started : Launch
  failed : LaunchError → Launch

-- `_read_launch_failure`. `report` is `json.loads` with the exception of its fields, and `none` where the
-- text is no such report.
unfoldable pub read_launch_failure : (report : String → Option LaunchError) → StatusPipe → Launch
read_launch_failure report silent = pending
read_launch_failure report (closed text) =
    if str_eq text "" then started else elim (report text) [ none ↦ started | some e ↦ failed e ]

pub record JobExecutionResult : Type 0 where
  pub exit_code : Option ℤ
  pub timed_out : Bool
  pub cancelled : Bool
  pub duration : Duration
  pub stdout : String
  pub stderr : String
  pub lease_lost : Bool

-- `exit_code == 0`
abbrev pub is_zero : Option ℤ → Bool
is_zero (some (pos zero)) = true
is_zero _ = false

-- `JobExecutionResult.succeeded`
unfoldable pub succeeded : JobExecutionResult → Bool
succeeded r = not r.timed_out && (not r.cancelled && (not r.lease_lost && is_zero r.exit_code))

-- `process.communicate` within a slice: the process ended with its output, or the slice expired, and
-- then whether `process.poll()` says that the supervisor has ended.
pub data Communicate : Type 0 where
  finished : (stdout stderr : String) → Communicate
  expired : (ended : Bool) → Communicate

-- What one pass of the loop meets: the clock, the two events, the status pipe and the process.
pub record Pass : Type 0 where
  pub now : Time
  pub lease_lost : Bool
  pub cancelled : Bool
  pub status : StatusPipe
  pub communicate : Communicate

-- What an ending meets: the outputs of its calls of `communicate`, the exit code, and the clock.
pub record Ending : Type 0 where
  pub first : Option (String × String)
  pub second : Option (String × String)
  pub exit_code : Option ℤ
  pub now : Time

pub record World : Type 0 where
  pub start : Time
  pub pass : ℕ → Pass
  pub ending : ℕ → Ending
  pub report : String → Option LaunchError
  -- the text of the result of a command that could not be started
  pub describe : LaunchError → String

pub data Signal : Type 0 where
  sigterm sigkill : Signal

pub data Outcome : Type 0 where
  returned : JobExecutionResult → Outcome
  raised : LaunchError → Outcome

-- What an execution did: its outcome, the signals to the group in their order, and the pass that ended
-- it.
pub record Run : Type 0 where
  pub outcome : Outcome
  pub signals : List Signal
  pub last_pass : ℕ

abbrev pub no_output : Option (String × String) → String × String
no_output none = ("", "")
no_output (some output) = output

-- The output of `_terminate_early`, and whether SIGKILL follows.
abbrev pub after_sigterm : Ending → (String × String) × List Signal
after_sigterm e = elim e.first [
  | some output ↦ (output, sigterm ∷ [])
  | none ↦ (no_output e.second, sigterm ∷ sigkill ∷ [])
]

module _ (w : World) where
  -- `_terminate_early` at a pass, with `_kill_the_group_on_exit` behind it.
  unfoldable pub terminate_early : (k : ℕ) → (timed_out cancelled lease_lost : Bool) → Run
  terminate_early k timed_out cancelled lease_lost =
      let ((out, err), signals) = after_sigterm (w.ending k) in
      record {
        outcome = returned (record {
          exit_code = (w.ending k).exit_code;
          timed_out = timed_out;
          cancelled = cancelled;
          duration = (w.ending k).now - w.start;
          stdout = out;
          stderr = err;
          lease_lost = lease_lost;
        });
        signals = signals ++ sigkill ∷ [];
        last_pass = k;
      }

  -- The results that no flag marks.
  abbrev pub plain : (k : ℕ) → Option ℤ → (stdout stderr : String) → JobExecutionResult
  plain k exit_code out err = record {
    exit_code = exit_code;
    timed_out = false;
    cancelled = false;
    duration = (w.ending k).now - w.start;
    stdout = out;
    stderr = err;
    lease_lost = false;
  }

  -- `_collect_after_supervisor_ended`
  unfoldable pub collect_after_supervisor_ended : (k : ℕ) → Run
  collect_after_supervisor_ended k =
      let (out, err) = no_output (w.ending k).first in
      record {
        outcome = returned (plain k (w.ending k).exit_code out err);
        signals = sigkill ∷ sigkill ∷ [];
        last_pass = k;
      }

  -- `_could_not_start`
  unfoldable pub could_not_start : (k : ℕ) → LaunchError → Run
  could_not_start k e = record {
    outcome = returned (plain k none "" (w.describe e));
    signals = sigkill ∷ [];
    last_pass = k;
  }

  -- What a pass does: another one, with whether the launch is still pending, or an end.
  pub data Verdict : Type 0 where
    goes_on : (launch_pending : Bool) → Verdict
    stops : Run → Verdict

  -- The part of a pass while the supervisor has not said whether the command started.
  unfoldable pub await_launch : (k : ℕ) → Launch → Verdict
  unfolding could_not_start
  await_launch k pending = goes_on true
  await_launch k started = goes_on false
  await_launch k (failed e) =
      if is_launch_fault e.kind
      then stops (could_not_start k e)
      else stops (record { outcome = raised e; signals = sigkill ∷ []; last_pass = k })

  -- The part of a pass while the command runs.
  unfoldable pub await_end : (k : ℕ) → Communicate → Verdict
  unfolding collect_after_supervisor_ended
  await_end k (finished out err) = stops (record {
    outcome = returned (plain k (w.ending k).exit_code out err);
    signals = sigkill ∷ [];
    last_pass = k;
  })
  await_end k (expired ended) =
      if ended then stops (collect_after_supervisor_ended k) else goes_on false

  -- The body of the loop.
  unfoldable pub decide : (deadline : Time) → (launch_pending : Bool) → (k : ℕ) → Verdict
  unfolding terminate_early await_launch await_end read_launch_failure
  decide deadline launch_pending k =
      if leb deadline (w.pass k).now
      then stops (terminate_early k true false false)
      else if (w.pass k).lease_lost
      then stops (terminate_early k false false true)
      else if (w.pass k).cancelled
      then stops (terminate_early k false true false)
      else if launch_pending
      then await_launch k (read_launch_failure w.report (w.pass k).status)
      else await_end k (w.pass k).communicate

  -- The loop from pass k on: `none` where the fuel is used up.
  unfoldable pub run_from : (deadline : Time) → (fuel k : ℕ) → (launch_pending : Bool) → Option Run
  unfolding decide
  run_from deadline zero k launch_pending = none
  run_from deadline (suc fuel) k launch_pending = elim (decide deadline launch_pending k) [
    | stops run ↦ some run
    | goes_on launch_pending' ↦ run_from deadline fuel (k + 1) launch_pending'
  ]

  -- `execute`, where the supervisor could be started. A job without a command is a success.
  unfoldable pub execute : (command : Option (List String)) → (timeout : Duration) → Option Run
  unfolding run_from
  execute none timeout = some (record {
    outcome = returned (record {
      exit_code = some (pos 0);
      timed_out = false;
      cancelled = false;
      duration = 0;
      stdout = "";
      stderr = "";
      lease_lost = false;
    });
    signals = [];
    last_pass = 0;
  })
  execute (some command) timeout = run_from (w.start + timeout) (timeout + 1) 0 true
