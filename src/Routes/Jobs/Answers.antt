-- ===== src/Routes/Jobs/Answers.antt =====
-- What the answer to a cancellation says of the database.
use aethergrid.Base.{ℕ, ◌≡◌, refl, sym, subst, Option, none, some, Result, ok, raise}
use aethergrid.Domain.Job.{Job}
use aethergrid.Store.{Db}
use aethergrid.Service.Env.{Env}
use aethergrid.Service.Jobs.{cancel_job}
use aethergrid.Service.Jobs.Cancellation.{Cancelled, CancelOutcome, cancel_job-Outcome}
use aethergrid.Access.ApiKey.{ApiKey}
use aethergrid.Routes.{Response, answered, refused, crashed, attempt, handle, unguarded}
use aethergrid.Routes.Attempts.{IsError, handle-IsError, attempt_ok, attempt_raise}
use aethergrid.Routes.Jobs.{
  GetJobResponse, get_job_response, job_or_404, cancel_job_route, no_cancellation,
}

-- What a cancellation over HTTP leaves.
abbrev pub CancelAnswer : Option ℕ → ApiKey → Db → Response GetJobResponse × Db → Type 0
CancelAnswer job_id caller db (answered status body, db') =
    (status ≡ 200)
    × ((id : ℕ) × (job : Job) × (job_id ≡ some id)
        × (body ≡ get_job_response job)
        × Cancelled id caller.tenant_id job db db')
CancelAnswer job_id caller db (_, db') = db' ≡ db

refusal-CancelAnswer :
    (job_id : Option ℕ) (caller : ApiKey) (db : Db) (r : Response GetJobResponse)
    → IsError r
    → CancelAnswer job_id caller db (r, db)
refusal-CancelAnswer job_id caller db (answered _ _) h = absurd h
refusal-CancelAnswer job_id caller db (refused _) h = refl
refusal-CancelAnswer job_id caller db (crashed _) h = refl

cancelled_answer :
    (env : Env) (id : ℕ) (caller : ApiKey) (db : Db) (r : Result (Option Job)) (db' : Db)
    → cancel_job env id caller.tenant_id db ≡ (r, db')
    → CancelOutcome id caller.tenant_id db (r, db')
    → CancelAnswer
        (some id)
        caller
        db
        (attempt (cancel_job env id caller.tenant_id) no_cancellation job_or_404 db)
unfolding job_or_404
cancelled_answer env id caller db (ok none) db' e h =
    subst (CancelAnswer (some id) caller db)
      (sym
        (attempt_ok (cancel_job env id caller.tenant_id) no_cancellation job_or_404 db db' none e))
      h.1
cancelled_answer env id caller db (ok (some job)) db' e h =
    subst (CancelAnswer (some id) caller db)
      (sym (
        attempt_ok (cancel_job env id caller.tenant_id) no_cancellation job_or_404 db db' (some job)
          e))
      (refl, (id, job, refl, refl, h))
cancelled_answer env id caller db (raise x) db' e h =
    subst (CancelAnswer (some id) caller db)
      (sym
        (attempt_raise (cancel_job env id caller.tenant_id) no_cancellation job_or_404 db db' x e))
      (subst (λ d. CancelAnswer (some id) caller db (handle no_cancellation x, d)) (sym h)
        (refusal-CancelAnswer (some id) caller db (handle no_cancellation x)
          (handle-IsError GetJobResponse no_cancellation x)))

-- A cancellation over HTTP that is answered 200 is of a job of the caller's tenant, which it moved from
-- queued or scheduled to cancelled, from running to cancelling or left in cancelling, and whose new
-- state is the body; it wrote this one row. With any other answer nothing changed.
pub cancel_job_route-Answer :
    (env : Env) (job_id : Option ℕ) (caller : ApiKey) (db : Db)
    → CancelAnswer job_id caller db (cancel_job_route env job_id caller db)
unfolding cancel_job_route unguarded
cancel_job_route-Answer env none caller db = refl
cancel_job_route-Answer env (some id) caller db =
    cancelled_answer env id caller db (cancel_job env id caller.tenant_id db).0
      (cancel_job env id caller.tenant_id db).1 refl (cancel_job-Outcome env id caller.tenant_id db)
