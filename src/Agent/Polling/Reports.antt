-- ===== src/Agent/Polling/Reports.antt =====
-- When the agent reports an outcome.
use aethergrid.Base.{
  ℕ, ◌≡◌, inl, inr, refl, sym, ap, ◌∙◌, Bool, true, false, ◌||◌, Option, none, some, String,
  Bool-cases, if◌then◌else◌, Option-cases, arith,
}
use aethergrid.Domain.Resources.{Duration}
use aethergrid.Execution.Process.{JobExecutionResult, Outcome, Run, execute}
use aethergrid.Agent.Retry.{Number, Answer-cases, returned, read_reply}
use aethergrid.Agent.Renewal.{keep_lease_alive, start_keeper}
use aethergrid.Agent.Polling.{
  done, Report, AssignedJob, path_of, JobInputs, JobRun, is_lost, report_outcome, after_execution,
  run_job,
}

module _ (float : String → Option Number) (longest : Duration) where
  -- The request of a report.
  abbrev pub IsRequest : (worker_id : ℕ) (job : AssignedJob) → JobExecutionResult → Report → Type 0
  IsRequest worker_id job result report = report ≡ record {
    worker_id = worker_id;
    job_id = job.id;
    path = path_of result;
    exit_code = result.exit_code;
    lease_id = job.lease_id;
  }

  -- A report that was sent: the server accepted the start, the command ended with a result, the renewal
  -- thread had not given the lease up, and the request names the lease and the path of the result.
  pub record Reported (worker_id : ℕ) (job : AssignedJob) (inputs : JobInputs) (report : Report)
      : Type 0 where
    pub started : read_reply inputs.start ≡ returned tt
    pub result : JobExecutionResult
    pub run : Run
    pub executed : execute inputs.world job.command job.execution_timeout ≡ some run
    pub ended : run.outcome ≡ Outcome.returned result
    pub held :
        is_lost (keep_lease_alive float inputs.rounds (start_keeper inputs.started_at)) ≡ false
    pub not_lost : result.lease_lost ≡ false
    pub request : IsRequest worker_id job result report

  Option-some_inj : {A : Type 0} {a b : A} → some a ≡ some b → a ≡ b
  Option-some_inj e = cc

  after_execution-Request :
      (worker_id : ℕ) (job : AssignedJob) (lost : Bool) (o : Outcome) (inputs : JobInputs)
      (report : Report)
      → (after_execution float longest worker_id job lost o inputs).report ≡ some report
      → (result : JobExecutionResult) × (o ≡ Outcome.returned result)
        × (lost ≡ false)
        × (result.lease_lost ≡ false)
        × IsRequest worker_id job result report
  unfolding after_execution report_outcome
  after_execution-Request worker_id job lost (Outcome.raised x) inputs report h = cc
  after_execution-Request worker_id job lost (Outcome.returned result) inputs report h =
      elim (Bool-cases result.lease_lost) [
        | inl e ↦ absurd (given_up (ap (λ b. b || lost) e))
        | inr e ↦ elim (Bool-cases lost) [
          | inl l ↦ absurd (given_up (rw (e, l) refl))
          | inr l ↦ (
            result,
            refl,
            l,
            e,
            sym (
                Option-some_inj
                  (sym (ap (λ b. (sent b).report) (or_false result.lease_lost lost e l)) ∙ h)),
          )
        ]
      ]
    where
      sent : Bool → JobRun
      sent b =
          if b
          then record { report = none; progress = done tt }
          else report_outcome float longest worker_id job result inputs

      or_false : (a b : Bool) → a ≡ false → b ≡ false → (a || b) ≡ false
      or_false a b x y = ground arith

      given_up : ¬ ((result.lease_lost || lost) ≡ true)
      given_up e = none_some (sym (ap (λ b. (sent b).report) e) ∙ h)
        where
          none_some : ¬ (none ≡ some report)
          none_some x = cc

  -- `run_job` sends a report only where the server accepted the start, the command ended with a result, and
  -- neither this result nor the renewal thread says that the lease was lost; the request then carries the
  -- lease that the job was handed out with, and the path and the exit code of the result.
  pub run_job-Reported :
      (worker_id : ℕ) (job : AssignedJob) (inputs : JobInputs) (report : Report)
      → (run_job float longest worker_id job inputs).report ≡ some report
      → Reported worker_id job inputs report
  unfolding run_job
  run_job-Reported worker_id job inputs report h = elim (Answer-cases (read_reply inputs.start)) [
    | inl (e, r) ↦ absurd (no_report (sym (rw (run_job, r) refl) ∙ h))
    | inr (inr r) ↦ absurd (no_report (sym (rw (run_job, r) refl) ∙ h))
    | inr (inl (_, r)) ↦
        elim (Option-cases (execute inputs.world job.command job.execution_timeout)) [
          | inl n ↦ absurd (no_report (sym (rw (run_job, r, n) refl) ∙ h))
          | inr (run, e) ↦
              let (result, ended, held, not_lost, request) =
                after_execution-Request worker_id job
                  (is_lost (keep_lease_alive float inputs.rounds (start_keeper inputs.started_at)))
                  run.outcome inputs report (sym (rw (run_job, r, e) refl) ∙ h) in
              record {
                started = r;
                result = result;
                run = run;
                executed = e;
                ended = ended;
                held = held;
                not_lost = not_lost;
                request = request;
              }
        ]
  ]
    where
      no_report : ¬ (none ≡ some report)
      no_report x = cc
