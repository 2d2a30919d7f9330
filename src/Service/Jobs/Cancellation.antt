-- ===== src/Service/Jobs/Cancellation.antt =====
-- cancel_job_service.py on every status of the job.
use aethergrid.Base.{
  ℕ, ◌≡◌, refl, sym, subst, ◌∙◌, ◌⊎◌, Option, none, some, inl, inr, arith, Result, Error, ok, raise,
  Bool-cases, Result-cases, any, bind_ok, bind_raise, mutate, pure, ◌>>=◌, ◌>>◌, Action,
  job_tenant_conflict, foreign_key_violation,
}
use aethergrid.Domain.Job
use aethergrid.Domain.Job.{Job, JobStatus}
use aethergrid.Store.{Db, upsert}
use aethergrid.Store.Jobs
use aethergrid.Store.Jobs.{in_other_tenant, node_is_there}
use aethergrid.Service.Env.{Env}
use aethergrid.Service.Jobs.{request_or_cancel, cancel_job}

-- The status that a cancellation leads to, and whether it is possible.
abbrev pub cancelled_status : JobStatus → Option JobStatus
cancelled_status JobStatus.queued = some JobStatus.cancelled
cancelled_status JobStatus.scheduled = some JobStatus.cancelled
cancelled_status JobStatus.running = some JobStatus.cancelling
cancelled_status JobStatus.cancelling = some JobStatus.cancelling
cancelled_status _ = none

-- The stored job that a cancellation changed, and the only row that it changed.
pub record Cancelled (job_id tenant_id : ℕ) (job' : Job) (db db' : Db) : Type 0 where
  pub job : Job
  pub found : Jobs.get_by_id job_id tenant_id db ≡ some job
  pub status : cancelled_status job.status ≡ some job'.status
  pub node : job'.assigned_node_id ≡ job.assigned_node_id
  pub started : job'.started_at ≡ job.started_at
  pub same : db' ≡ record db { jobs = upsert (λ row. row.id) job' db.jobs }

abbrev pub CancelOutcome : (job_id tenant_id : ℕ) → Db → Result (Option Job) × Db → Type 0
CancelOutcome id t db (ok none, db') = (Jobs.get_by_id id t db ≡ none) × (db' ≡ db)
CancelOutcome id t db (ok (some job'), db') = Cancelled id t job' db db'
CancelOutcome id t db (raise _, db') = db' ≡ db

request_or_cancel_status :
    (env : Env) (job : Job)
    → (request_or_cancel env job).0 ≡ ok tt
    → (cancelled_status job.status ≡ some (request_or_cancel env job).1.status)
      × ((request_or_cancel env job).1.assigned_node_id ≡ job.assigned_node_id)
      × ((request_or_cancel env job).1.started_at ≡ job.started_at)
unfolding Job.is_running Job.is_cancelling Job.request_cancellation Job.cancel
request_or_cancel_status env job h = ground arith

save-cases :
    (job : Job) (db : Db)
    → ((e : Error) × (Jobs.save job db ≡ (raise e, db)))
      ⊎ (Jobs.save job db ≡ (ok tt, record db { jobs = upsert (λ row. row.id) job db.jobs }))
unfolding Jobs.save
save-cases job db = elim (Bool-cases (any (in_other_tenant job) db.jobs)) [
  | inl e ↦ inl (job_tenant_conflict, rw e refl)
  | inr own ↦ elim (Bool-cases (node_is_there job db)) [
    | inr e ↦ inl (foreign_key_violation, rw (own, e) refl)
    | inl n ↦ inr (rw (own, n) refl)
  ]
]

-- For the job that was found.
cancel_found :
    (env : Env) (id t : ℕ) (job : Job) (db : Db)
    → Jobs.get_by_id id t db ≡ some job
    → CancelOutcome id t db
        ((mutate (request_or_cancel env) job >>= λ job'. Jobs.save job' >> pure (some job')) db)
cancel_found env id t job db found =
    let job' : Job = (request_or_cancel env job).1 in
    let save_it : Job → Action Db (Option Job) = λ j. Jobs.save j >> pure (some j) in
    elim (Result-cases (request_or_cancel env job).0) [
      | inr (x, e) ↦ rw (CancelOutcome, mutate, e) refl
      | inl (_, e) ↦
          let changed : mutate {S = Db} (request_or_cancel env) job db ≡ (ok job', db) =
            rw (mutate, e) refl in
          let stored : Db = record db { jobs = upsert (λ row. row.id) job' db.jobs } in
          let facts = request_or_cancel_status env job e in
          elim (save-cases job' db) [
            | inl (x, refused) ↦
                subst (CancelOutcome id t db)
                  (sym (
                    bind_ok (mutate (request_or_cancel env) job) db db job' save_it changed
                    ∙ bind_raise (Jobs.save job') db db x (λ _. pure (some job')) refused))
                  refl
            | inr done ↦
                subst (CancelOutcome id t db)
                  (sym (
                    bind_ok (mutate (request_or_cancel env) job) db db job' save_it changed
                    ∙ bind_ok (Jobs.save job') db stored tt (λ _. pure (some job')) done))
                  (record {
                    job = job;
                    found = found;
                    status = facts.0;
                    node = facts.1;
                    started = facts.2;
                    same = refl;
                  })
          ]
    ]

looked_up :
    (env : Env) (id t : ℕ) (o : Option Job) (db : Db)
    → Jobs.get_by_id id t db ≡ o
    → CancelOutcome id t db (
        elim o as (λ _. Action Db (Option Job)) [
          | none ↦ pure none
          | some job ↦
              mutate (request_or_cancel env) job >>= λ job'. Jobs.save job' >> pure (some job')
        ]
          db)
looked_up env id t none db e = (e, refl)
looked_up env id t (some job) db e = cancel_found env id t job db e

-- A cancellation of a job that the tenant does not have returns nothing and changes nothing. One that
-- returns the job has found it stored, moved a queued or scheduled job to cancelled, a running one to
-- cancelling and left one that is being cancelled in that status, kept its node and its start, and
-- written this one row. One that raises has changed nothing.
pub cancel_job-Outcome :
    (env : Env) (job_id tenant_id : ℕ) (db : Db)
    → CancelOutcome job_id tenant_id db (cancel_job env job_id tenant_id db)
unfolding cancel_job
cancel_job-Outcome env id t db = looked_up env id t (Jobs.get_by_id id t db) db refl
