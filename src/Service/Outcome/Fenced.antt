-- ===== src/Service/Outcome/Fenced.antt =====
-- report_job_outcome_service.py: nothing is written for a caller that no longer holds the lease.
use aethergrid.Base.{
  ℕ, ◌≡◌, refl, ap, ◌∙◌, ◌==◌, not, inl, inr, Result, Error, ok, raise, Action, Result-cases,
  bind_ok, bind_raise, Keeps, bind-Keeps, pure-Keeps, gets-Keeps, or_throw-Keeps, throw_if-Keeps,
  call-Keeps, gets, pure, or_throw, throw_if, call, ◌>>=◌, ◌>>◌, worker_not_found,
  worker_job_mismatch,
}
use aethergrid.Domain.Job.{Job}
use aethergrid.Domain.Worker.{Worker}
use aethergrid.Domain.Event.{EventType}
use aethergrid.Domain.Lease.{Lease}
use aethergrid.Store.{Db}
use aethergrid.Store.Jobs
use aethergrid.Store.Workers
use aethergrid.Store.Events.{record_for_job}
use aethergrid.Service.Env.{Env}
use aethergrid.Service.Leases.{release_lease}
use aethergrid.Service.Leases.Fencing.{Holds, ReleaseOutcome, release_lease-Outcome}
use aethergrid.Service.Outcome.{owning_worker, release_node, finish, report}

-- The call raises and the database is as it was.
abbrev pub Refused : {A : Type 0} → Action Db A → Db → Type 0
Refused m db = (x : Error) × (m db ≡ (raise x, db))

first-Refused :
    {A B : Type 0} (m : Action Db A) (k : A → Action Db B) (db : Db)
    → Refused m db
    → Refused (m >>= k) db
first-Refused m k db (x, e) = (x, bind_raise m db db x k e)

after-Refused :
    {A B : Type 0} (m : Action Db A) (k : A → Action Db B) (db : Db)
    → Keeps (λ s. s ≡ db) m
    → ((a : A) → Refused (k a) db)
    → Refused (m >>= k) db
after-Refused m k db reads h =
    let same : (m db).1 ≡ db = reads.keeps db refl in
    elim (Result-cases (m db).0) [
      | inl (a, e) ↦
          let step : m db ≡ (ok a, db) = rw (e, same) refl in
          let (x, r) = h a in (x, bind_ok m db db a k step ∙ r)
      | inr (x, e) ↦ (x, bind_raise m db db x k (rw (e, same) refl))
    ]

module _ (env : Env) (w l t : ℕ) (db : Db) (gone : (lease : Lease) → ¬ Holds db w l t lease) where
  release-Refused :
      (r : Result (Unit {0})) (db' : Db)
      → release_lease env w l t db ≡ (r, db')
      → ReleaseOutcome w l t db (r, db')
      → Refused (release_lease env w l t) db
  release-Refused (ok _) db' e out = absurd (gone out.lease out.held)
  release-Refused (raise x) db' e out = (x, e ∙ ap (λ d. (raise x, d)) out)

  pub release_lease-Refused : Refused (release_lease env w l t) db
  release_lease-Refused =
      release-Refused (release_lease env w l t db).0 (release_lease env w l t db).1 refl
        (release_lease-Outcome env w l t db)

  finish-Refused :
      (worker : Worker) (job : Job) (type : EventType)
      → Refused (finish env worker w job type l t) db
  unfolding finish
  finish-Refused worker job type =
      first-Refused (release_lease env w l t)
        (λ _.
          Workers.save worker
          >> (release_node job t
              >> (Jobs.save job >> (record_for_job (env.fresh 1) job type env.now >> pure worker))))
        db release_lease-Refused

owning_worker-Keeps : (P : Db → Type 0) (env : Env) (w j t : ℕ) → Keeps P (owning_worker env w j t)
unfolding owning_worker
owning_worker-Keeps P env w j t =
    bind-Keeps P (gets (Workers.get_by_id env.names w t)) _ (gets-Keeps P _) λ found.
      bind-Keeps P (or_throw worker_not_found found) _ (or_throw-Keeps P _ _) λ worker.
        bind-Keeps P (throw_if (not (worker.node.tenant_id == t)) worker_not_found) _
          (throw_if-Keeps P _ _)
          λ _.
            bind-Keeps P (or_throw worker_job_mismatch worker.running_job) _ (or_throw-Keeps P _ _)
              λ job.
                bind-Keeps P (throw_if (not (job.id == j)) worker_job_mismatch) _
                  (throw_if-Keeps P _ _) λ _. pure-Keeps P (worker, job)

-- A report raises and changes nothing in the database, whatever the outcome it reports, where its
-- worker holds no lease with the identifier that the caller names: after a lease was reclaimed, or
-- the worker has another one, the result of the old run is dropped.
pub report-Refused :
    (env : Env) (outcome : Action Worker Job) (type : EventType)
    (worker_id job_id tenant_id lease_id : ℕ) (db : Db)
    → ((lease : Lease) → ¬ Holds db worker_id lease_id tenant_id lease)
    → Refused (report env outcome type worker_id job_id tenant_id lease_id) db
unfolding report
report-Refused env outcome type w j t l db gone =
    let ends : Worker × Job → Action Db Worker = λ x. finish env x.0 w x.1 type l t in
    after-Refused (owning_worker env w j t) (λ x. call outcome x.0 >>= ends) db
      (owning_worker-Keeps (λ s. s ≡ db) env w j t)
      λ x.
        after-Refused (call outcome x.0) ends db (call-Keeps (λ s. s ≡ db) outcome x.0)
          λ y. finish-Refused env w l t db gone y.0 y.1 type
