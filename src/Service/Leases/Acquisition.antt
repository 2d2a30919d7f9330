-- ===== src/Service/Leases/Acquisition.antt =====
-- acquire_lease_service.py: at most one lease for a job, whoever asks at the same time.
use aethergrid.Base.{
  ◌>>◌, pure, Action, bind_ok, bind_raise, subst, ◌≡◌, refl, sym, ap, ◌∙◌, ◌⊎◌, Error,
  unique_violation, worker_not_found, foreign_key_violation, true, false, none, ◌==◌, ==→eq, any,
  inl, inr, arith, Result, ok, raise, Bool-cases, Option-cases,
}
use aethergrid.Domain.Job.{Job}
use aethergrid.Domain.Worker.{Worker, tenant_id}
use aethergrid.Domain.Lease
use aethergrid.Domain.Lease.{Lease}
use aethergrid.Domain.Event.{lease_acquired}
use aethergrid.Store.{Db, upsert}
use aethergrid.Store.Leases.{clashes, get_by_job_id}
use aethergrid.Store.Leases
use aethergrid.Store.Events.{record_for_job}
use aethergrid.Store.Events.Recording.{OnlyEvents}
use aethergrid.Store.Consistent.{has_job, has_worker}
use aethergrid.Service.Env.{Env}
use aethergrid.Service.Leases.{acquire_lease}

-- The lease is new, for this worker and this job of one tenant, which no other lease names.
pub record Acquired (worker : Worker) (job : Job) (lease : Lease) (db db' : Db) : Type 0 where
  pub tenant : job.tenant_id ≡ tenant_id worker
  pub job_id : lease.job_id ≡ job.id
  pub worker_id : lease.worker_id ≡ worker.id
  pub lease_tenant : lease.tenant_id ≡ job.tenant_id
  pub unheld : get_by_job_id job.id job.tenant_id db ≡ none
  pub alone : any (clashes lease) db.leases ≡ false
  pub leases : db'.leases ≡ upsert (λ row. row.id) lease db.leases
  pub jobs : db'.jobs ≡ db.jobs
  pub nodes : db'.nodes ≡ db.nodes
  pub workers : db'.workers ≡ db.workers

abbrev pub AcquireOutcome : Worker → Job → Db → Result Lease × Db → Type 0
AcquireOutcome worker job db (ok lease, db') = Acquired worker job lease db db'
AcquireOutcome worker job db (raise _, db') = db' ≡ db

-- An event about a job that is stored is recorded.
recorded :
    (env : Env) (job : Job) (db : Db)
    → has_job job.id job.tenant_id db ≡ true
    → (db' : Db) × (record_for_job (env.fresh 1) job lease_acquired env.now db ≡ (ok tt, db'))
      × OnlyEvents db db'
unfolding record_for_job
recorded env job db there =
    let (o, kept) : ((record_for_job (env.fresh 1) job lease_acquired env.now db).0 ≡ ok tt)
        × OnlyEvents db (record_for_job (env.fresh 1) job lease_acquired env.now db).1 =
      ground arith in
    (
      (record_for_job (env.fresh 1) job lease_acquired env.now db).1,
      ap (λ r. (r, (record_for_job (env.fresh 1) job lease_acquired env.now db).1)) o,
      kept,
    )

-- What a save that is not refused has found and done.
record Saved (lease : Lease) (db db' : Db) : Type 0 where
  alone : any (clashes lease) db.leases ≡ false
  job : has_job lease.job_id lease.tenant_id db ≡ true
  same : db' ≡ record db { leases = upsert (λ row. row.id) lease db.leases }

save-cases :
    (lease : Lease) (db : Db)
    → ((e : Error) × (Leases.save lease db ≡ (raise e, db)))
      ⊎ ((db' : Db) × (Leases.save lease db ≡ (ok tt, db')) × Saved lease db db')
unfolding Leases.save
save-cases lease db = elim (Bool-cases (any (clashes lease) db.leases)) [
  | inl e ↦ inl (unique_violation, rw e refl)
  | inr alone ↦ elim (Bool-cases (has_worker lease.worker_id lease.tenant_id db)) [
    | inr e ↦ inl (worker_not_found, rw (alone, e) refl)
    | inl w ↦ elim (Bool-cases (has_job lease.job_id lease.tenant_id db)) [
      | inr e ↦ inl (foreign_key_violation, rw (alone, w, e) refl)
      | inl j ↦ inr (
        record db { leases = upsert (λ row. row.id) lease db.leases },
        rw (alone, w, j) refl,
        record { alone = alone; job = j; same = refl },
      )
    ]
  ]
]

-- From the save on.
acquired :
    (env : Env) (worker : Worker) (job : Job) (lease : Lease) (db : Db)
    → job.tenant_id ≡ tenant_id worker
    → get_by_job_id job.id job.tenant_id db ≡ none
    → lease ≡ Lease.create (env.fresh 0) worker.id job.id (tenant_id worker) env.now
    → AcquireOutcome worker job db (
        (Leases.save lease
            >> (record_for_job (env.fresh 1) job lease_acquired env.now >> pure lease))
          db)
unfolding Lease.create
acquired env worker job lease db one_tenant unheld e =
    let record_it : Action Db (Unit {0}) =
      record_for_job (env.fresh 1) job lease_acquired env.now in
    elim (save-cases lease db) [
      | inl (e, refused) ↦
          subst (AcquireOutcome worker job db)
            (sym (bind_raise (Leases.save lease) db db e (λ _. record_it >> pure lease) refused))
            refl
      | inr (db', done, s) ↦
          let there : has_job job.id job.tenant_id db' ≡ true =
            rw (one_tenant, s.same)
              (subst (λ (l : Lease). has_job l.job_id l.tenant_id db ≡ true) e s.job) in
          let (db'', o, kept) = recorded env job db' there in
          subst (AcquireOutcome worker job db)
            (sym (
              bind_ok (Leases.save lease) db db' tt (λ _. record_it >> pure lease) done
              ∙ bind_ok record_it db' db'' tt (λ _. pure lease) o))
            (record {
              tenant = one_tenant;
              job_id = ap (λ l. l.job_id) e;
              worker_id = ap (λ l. l.worker_id) e;
              lease_tenant = ap (λ l. l.tenant_id) e ∙ sym one_tenant;
              unheld = unheld;
              alone = s.alone;
              leases = kept.leases ∙ ap (λ d. d.leases) s.same;
              jobs = kept.jobs ∙ ap (λ d. d.jobs) s.same;
              nodes = kept.nodes ∙ ap (λ d. d.nodes) s.same;
              workers = kept.workers ∙ ap (λ d. d.workers) s.same;
            })
    ]

-- An acquisition that returns has written a lease of the worker on the job, of the one tenant that
-- both are in, where no lease was on the job and no other row has its job or its worker; jobs, nodes
-- and workers are as they were. An acquisition that raises has changed nothing.
pub acquire_lease-Outcome :
    (env : Env) (worker : Worker) (job : Job) (db : Db)
    → AcquireOutcome worker job db (acquire_lease env worker job db)
unfolding acquire_lease
acquire_lease-Outcome env worker job db = elim (Bool-cases (job.tenant_id == tenant_id worker)) [
  | inr e ↦ rw (acquire_lease, e) refl
  | inl same ↦ elim (Option-cases (get_by_job_id job.id job.tenant_id db)) [
    | inr (held, e) ↦ rw (acquire_lease, same, e) refl
    | inl unheld ↦
        rw (acquire_lease, same, unheld)
          (acquired env worker job _ db (==→eq job.tenant_id (tenant_id worker) same) unheld refl)
  ]
]
