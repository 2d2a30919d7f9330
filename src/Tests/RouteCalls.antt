-- ===== src/Tests/RouteCalls.antt =====
-- Requests of agents.
use aethergrid.Base.{ℕ, ◌≡◌, some, inl, inr, arith, pos}
use aethergrid.Domain.Lease.{Lease}
use aethergrid.Service.Leases.Fencing.{Holds}
use aethergrid.Routes.Workers.{complete_job, fail_job, confirm_job_cancellation, renew_lease_route}
use aethergrid.Routes.Workers.Answers.{reports-IsRefusal, RenewAnswer, renew_lease_route-Answer}
use aethergrid.Routes.Attempts.{IsRefusal}
use aethergrid.Routes.Jobs.{cancel_job_route}
use aethergrid.Routes.Jobs.Answers.{CancelAnswer, cancel_job_route-Answer}
use aethergrid.Routes.Auth.{Api, Request}
use aethergrid.Tests.Data.{env, busy}
use aethergrid.Tests.Callers.{agent_key, exact, limiter, issued}

gone : (w : ℕ) → some 30 ≡ some w → (lease : Lease) → ¬ Holds busy w 39 1 lease
gone w e lease h = elim h.stored [ inl e ↦ ground arith | inr m ↦ m ]

reports-IsRefusal_example :
    IsRefusal (complete_job env (some 30) (some 10) 39 (some (pos 0)) agent_key) busy
    × IsRefusal (fail_job env (some 30) (some 10) 39 (some (pos 0)) agent_key) busy
    × IsRefusal (confirm_job_cancellation env (some 30) (some 10) 39 (some (pos 0)) agent_key) busy
reports-IsRefusal_example =
    reports-IsRefusal env (some 30) (some 10) 39 (some (pos 0)) agent_key busy gone

renew_lease_route-Answer_example :
    RenewAnswer env (some 30) 40 agent_key busy (renew_lease_route env (some 30) 40 agent_key busy)
renew_lease_route-Answer_example = renew_lease_route-Answer env (some 30) 40 agent_key busy

cancel_job_route-Answer_example :
    CancelAnswer (some 10) agent_key busy (cancel_job_route env (some 10) agent_key busy)
cancel_job_route-Answer_example = cancel_job_route-Answer env (some 10) agent_key busy

abbrev api : Api exact
api = record { credentials = issued; limiter = limiter; db = busy }

abbrev signed : Request exact
signed = record {
  authorization = some "drawn";
  bearer = λ header. some header;
  hash_secret = λ raw_key. raw_key;
  now = 40;
  clock = 5;
}
