-- ===== src/Tests/JobCalls.antt =====
-- Calls on jobs.
use aethergrid.Domain.Worker
use aethergrid.Domain.Event.{job_completed}
use aethergrid.Domain.Lease.{Lease}
use aethergrid.Base.{some, pos, inl, inr, arith}
use aethergrid.Service.Jobs.{cancel_job}
use aethergrid.Service.Jobs.Cancellation.{CancelOutcome, cancel_job-Outcome}
use aethergrid.Service.Leases.Fencing.{Holds}
use aethergrid.Service.Outcome.{report}
use aethergrid.Service.Outcome.Fenced.{Refused, report-Refused}
use aethergrid.Tests.Data.{env, busy}

cancel_job-Outcome_example : CancelOutcome 10 1 busy (cancel_job env 10 1 busy)
cancel_job-Outcome_example = cancel_job-Outcome env 10 1 busy

not_held : (lease : Lease) → ¬ Holds busy 30 39 1 lease
not_held lease h = elim h.stored [ inl e ↦ ground arith | inr m ↦ m ]

report-Refused_example :
    Refused (report env (Worker.complete (some (pos 0)) 200) job_completed 30 10 1 39) busy
report-Refused_example =
    report-Refused env (Worker.complete (some (pos 0)) 200) job_completed 30 10 1 39 busy not_held
