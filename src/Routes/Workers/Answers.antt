-- ===== src/Routes/Workers/Answers.antt =====
-- What the answers to an agent say of the database.
use aethergrid.Base.{
  ℕ, ℤ, ◌+◌, ◌≡◌, refl, sym, subst, Option, none, some, Result, Error, ok, raise, Action,
}
use aethergrid.Domain.Worker
use aethergrid.Domain.Worker.{Worker}
use aethergrid.Domain.Lease.{Lease, default_lease_duration}
use aethergrid.Domain.Event.{job_completed, job_failed, job_cancelled}
use aethergrid.Store.{Db}
use aethergrid.Service.Env.{Env}
use aethergrid.Service.Leases.{renew_lease}
use aethergrid.Service.Leases.Fencing.{Holds, Renewed, RenewOutcome, renew_lease-Outcome}
use aethergrid.Service.Outcome
use aethergrid.Service.Outcome.{report}
use aethergrid.Service.Outcome.Fenced.{Refused, report-Refused}
use aethergrid.Access.ApiKey.{ApiKey}
use aethergrid.Routes.{Response, answered, refused, crashed, Route, handle, refuse, attempt, parsed}
use aethergrid.Routes.Attempts.{IsError, IsRefusal, handle-IsError, attempt_ok, attempt_raise}
use aethergrid.Routes.Workers.{
  GetWorkerResponse, complete_job, fail_job, confirm_job_cancellation, report_route,
  renew_lease_route, get_worker, with_lease, no_renewal,
}

attempt-IsRefusal :
    {A B : Type 0} (m : Action Db A) (status_of : Error → Option ℕ) (k : A → Route B) (db : Db)
    → Refused m db
    → IsRefusal (attempt m status_of k) db
attempt-IsRefusal {B = B} m status_of k db (x, e) =
    subst (λ (r : Response B × Db). IsError r.0 × (r.1 ≡ db))
      (sym (attempt_raise m status_of k db db x e)) (handle-IsError B status_of x, refl)

report_route-IsRefusal :
    (service : (worker_id job_id tenant_id lease_id : ℕ) (exit_code : Option ℤ) → Action Db Worker)
    (worker_id job_id : Option ℕ) (lease_id : ℕ) (exit_code : Option ℤ) (caller : ApiKey) (db : Db)
    → ((w j : ℕ)
        → worker_id ≡ some w
        → Refused (service w j caller.tenant_id lease_id exit_code) db)
    → IsRefusal (report_route service worker_id job_id lease_id exit_code caller) db
unfolding report_route parsed
report_route-IsRefusal service none job_id lease_id exit_code caller db h = (tt, refl)
report_route-IsRefusal service (some w) none lease_id exit_code caller db h = (tt, refl)
report_route-IsRefusal service (some w) (some j) lease_id exit_code caller db h =
    attempt-IsRefusal (service w j caller.tenant_id lease_id exit_code) _ _ db (h w j refl)

-- Whatever an agent reports over HTTP, completion, failure or cancellation: where the worker of the
-- path holds no lease with the identifier in the body in the caller's tenant, the answer is an error and
-- nothing changes in the database.
pub reports-IsRefusal :
    (env : Env) (worker_id job_id : Option ℕ) (lease_id : ℕ) (exit_code : Option ℤ)
    (caller : ApiKey) (db : Db)
    → ((w : ℕ)
        → worker_id ≡ some w
        → (lease : Lease) → ¬ Holds db w lease_id caller.tenant_id lease)
    → IsRefusal (complete_job env worker_id job_id lease_id exit_code caller) db
      × IsRefusal (fail_job env worker_id job_id lease_id exit_code caller) db
      × IsRefusal (confirm_job_cancellation env worker_id job_id lease_id exit_code caller) db
unfolding complete_job fail_job confirm_job_cancellation Outcome.complete Outcome.fail
    Outcome.cancel
reports-IsRefusal env worker_id job_id lease_id exit_code caller db gone = (
  report_route-IsRefusal (Outcome.complete env) worker_id job_id lease_id exit_code caller db
      (λ w j e.
        report-Refused env (Worker.complete exit_code env.now) job_completed w j caller.tenant_id
          lease_id db (gone w e)),
  report_route-IsRefusal (Outcome.fail env) worker_id job_id lease_id exit_code caller db (λ w j e.
      report-Refused env (Worker.fail exit_code env.now) job_failed w j caller.tenant_id lease_id db
        (gone w e)),
  report_route-IsRefusal (Outcome.cancel env) worker_id job_id lease_id exit_code caller db
      (λ w j e.
        report-Refused env (Worker.cancel_job exit_code env.now) job_cancelled w j caller.tenant_id
          lease_id db (gone w e)),
)

-- What a renewal over HTTP leaves.
abbrev pub RenewAnswer :
    Env → Option ℕ → (lease_id : ℕ) → ApiKey → Db → Response GetWorkerResponse × Db → Type 0
RenewAnswer env worker_id lease_id caller db (answered status _, db') =
    (status ≡ 200)
    × ((w : ℕ) × (worker_id ≡ some w)
        × Renewed w lease_id caller.tenant_id (env.now + default_lease_duration) db db')
RenewAnswer env worker_id lease_id caller db (_, db') = db' ≡ db

refusal-RenewAnswer :
    (env : Env) (worker_id : Option ℕ) (lease_id : ℕ) (caller : ApiKey) (db : Db)
    (r : Response GetWorkerResponse)
    → IsError r
    → RenewAnswer env worker_id lease_id caller db (r, db)
refusal-RenewAnswer env worker_id lease_id caller db (answered _ _) h = absurd h
refusal-RenewAnswer env worker_id lease_id caller db (refused _) h = refl
refusal-RenewAnswer env worker_id lease_id caller db (crashed _) h = refl

renewed_answer :
    (env : Env) (w lease_id : ℕ) (caller : ApiKey) (worker : Worker) (db : Db)
    (r : Result (Unit {0})) (db' : Db)
    → renew_lease env w lease_id caller.tenant_id default_lease_duration db ≡ (r, db')
    → RenewAnswer env (some w) lease_id caller db (
        attempt
          (renew_lease env w lease_id caller.tenant_id default_lease_duration)
          no_renewal
          (λ _. with_lease w caller.tenant_id worker)
          db)
unfolding with_lease
renewed_answer env w lease_id caller worker db (ok u) db' e =
    let renewed : Renewed w lease_id caller.tenant_id (env.now + default_lease_duration) db db' =
      subst (RenewOutcome w lease_id caller.tenant_id (env.now + default_lease_duration) db) e
        (renew_lease-Outcome env w lease_id caller.tenant_id default_lease_duration db) in
    subst (RenewAnswer env (some w) lease_id caller db)
      (sym (attempt_ok _ no_renewal (λ _. with_lease w caller.tenant_id worker) db db' u e))
      (refl, (w, refl, renewed))
renewed_answer env w lease_id caller worker db (raise x) db' e =
    let same : db' ≡ db =
      subst (RenewOutcome w lease_id caller.tenant_id (env.now + default_lease_duration) db) e
        (renew_lease-Outcome env w lease_id caller.tenant_id default_lease_duration db) in
    subst (RenewAnswer env (some w) lease_id caller db)
      (sym (attempt_raise _ no_renewal (λ _. with_lease w caller.tenant_id worker) db db' x e))
      (subst (λ d. RenewAnswer env (some w) lease_id caller db (handle no_renewal x, d)) (sym same)
        (refusal-RenewAnswer env (some w) lease_id caller db (handle no_renewal x)
          (handle-IsError GetWorkerResponse no_renewal x)))

-- A renewal over HTTP that is answered 200 moved the end of the lease that the body names and that the
-- worker of the path held in the caller's tenant, by the default duration from now, and changed nothing
-- else; with any other answer nothing changed.
pub renew_lease_route-Answer :
    (env : Env) (worker_id : Option ℕ) (lease_id : ℕ) (caller : ApiKey) (db : Db)
    → RenewAnswer env worker_id lease_id caller db
        (renew_lease_route env worker_id lease_id caller db)
unfolding renew_lease_route parsed
renew_lease_route-Answer env none lease_id caller db = refl
renew_lease_route-Answer env (some w) lease_id caller db =
    answer (get_worker env w caller.tenant_id db)
  where
    answer :
        (found : Option Worker)
        → RenewAnswer env (some w) lease_id caller db (elim found [
          | none ↦ refuse 404 db
          | some worker ↦
              attempt
                (renew_lease env w lease_id caller.tenant_id default_lease_duration)
                no_renewal
                (λ _. with_lease w caller.tenant_id worker)
                db
        ])
    answer none = refl
    answer (some worker) =
        renewed_answer env w lease_id caller worker db
          (renew_lease env w lease_id caller.tenant_id default_lease_duration db).0
          (renew_lease env w lease_id caller.tenant_id default_lease_duration db).1 refl
