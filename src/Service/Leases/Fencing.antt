-- ===== src/Service/Leases/Fencing.antt =====
-- The fences of release_lease_service.py and renew_lease_service.py: a caller acts on the lease that
-- it names, or on nothing.
use aethergrid.Base.{
  ℕ, ◌+◌, ◌≡◌, refl, ap, Bool, true, not, some, ◌==◌, ◌&&◌, if◌then◌else◌, inl, inr, arith, map,
  filter, find_passes, any, Member, find-Member, any-Member, Result, ok, raise, Bool-cases, ==→eq,
  Option-cases,
}
use aethergrid.Domain.Resources.{Time, Duration}
use aethergrid.Domain.Job.{Job}
use aethergrid.Domain.Lease.{Lease}
use aethergrid.Store.{Db}
use aethergrid.Store.Jobs
use aethergrid.Store.Workers
use aethergrid.Store.Leases.{of_job, is_lease, get_by_worker_id}
use aethergrid.Store.Leases
use aethergrid.Store.Events.{record_for_job}
use aethergrid.Store.Events.Recording.{record_for_job_total}
use aethergrid.Domain.Event.{lease_released}
use aethergrid.Service.Env.{Env}
use aethergrid.Service.Leases.{release_lease, renew_lease}

-- A stored lease with this identifier, which this worker holds in this tenant.
pub record Holds (db : Db) (worker_id lease_id tenant_id : ℕ) (lease : Lease) : Type 0 where
  pub stored : Member lease db.leases
  pub id : lease.id ≡ lease_id
  pub worker : lease.worker_id ≡ worker_id
  pub tenant : lease.tenant_id ≡ tenant_id

pub get_by_worker_id-Holds :
    (worker_id lease_id tenant_id : ℕ) (db : Db) (lease : Lease)
    → get_by_worker_id worker_id tenant_id db ≡ some lease
    → (lease.id == lease_id) ≡ true
    → Holds db worker_id lease_id tenant_id lease
unfolding get_by_worker_id
get_by_worker_id-Holds worker_id lease_id tenant_id db lease e same =
    let test : Lease → Bool = λ row. row.worker_id == worker_id && row.tenant_id == tenant_id in
    let passes : test lease ≡ true = find_passes test db.leases lease e in
    record {
      stored = find-Member test db.leases lease e;
      id = ==→eq lease.id lease_id same;
      worker = ground (arith, passes);
      tenant = ground (arith, passes);
    }

pub record Released (worker_id lease_id tenant_id : ℕ) (db db' : Db) : Type 0 where
  pub lease : Lease
  pub held : Holds db worker_id lease_id tenant_id lease
  pub leases : db'.leases ≡ filter (λ row. not (of_job lease.job_id tenant_id row)) db.leases
  pub jobs : db'.jobs ≡ db.jobs
  pub nodes : db'.nodes ≡ db.nodes
  pub workers : db'.workers ≡ db.workers

abbrev pub ReleaseOutcome :
    (worker_id lease_id tenant_id : ℕ) → Db → Result (Unit {0}) × Db → Type 0
ReleaseOutcome w l t db (ok _, db') = Released w l t db db'
ReleaseOutcome w l t db (raise _, db') = db' ≡ db

released :
    (env : Env) (worker_id lease_id tenant_id : ℕ) (lease : Lease) (job : Job) (db : Db)
    → Holds db worker_id lease_id tenant_id lease
    → Jobs.get_by_id lease.job_id tenant_id db ≡ some job
    → ReleaseOutcome worker_id lease_id tenant_id db (
        record_for_job
          (env.fresh 0)
          job
          lease_released
          env.now
          (Leases.delete lease.job_id tenant_id db))
unfolding Jobs.get_by_id Leases.delete
released env w l t lease job db held e =
    let deleted : Db = record db {
      leases = filter (λ row. not (of_job lease.job_id t row)) db.leases;
    } in
    let (o, same) =
      record_for_job_total (env.fresh 0) job lease_released env.now deleted
        (find-Member (λ row. row.id == lease.job_id && row.tenant_id == t) db.jobs job e) in
    rw o (record {
      lease = lease;
      held = held;
      leases = same.leases;
      jobs = same.jobs;
      nodes = same.nodes;
      workers = same.workers;
    })

-- A release that returns has deleted the lease that the caller named, which its worker held in its
-- tenant, and has touched no other lease than those of that job, no job, no node and no worker. A
-- release that raises has changed nothing.
pub release_lease-Outcome :
    (env : Env) (worker_id lease_id tenant_id : ℕ) (db : Db)
    → ReleaseOutcome worker_id lease_id tenant_id db
        (release_lease env worker_id lease_id tenant_id db)
unfolding release_lease
release_lease-Outcome env w l t db = elim (Option-cases (get_by_worker_id w t db)) [
  | inl e ↦ rw (e, release_lease) refl
  | inr (lease, e) ↦ elim (Bool-cases (lease.id == l)) [
    | inr ne ↦ rw (e, release_lease, ne) refl
    | inl eq ↦ elim (Option-cases (Workers.get_by_id env.names w t db)) [
      | inl e2 ↦ rw (e, release_lease, eq, e2) refl
      | inr (worker, e2) ↦ elim (Option-cases (Jobs.get_by_id lease.job_id t db)) [
        | inl e3 ↦ rw (e, release_lease, eq, e2, e3) refl
        | inr (job, e3) ↦
            rw (e, release_lease, eq, e2, e3)
              (released env w l t lease job db (get_by_worker_id-Holds w l t db lease e eq) e3)
      ]
    ]
  ]
]

-- The lease that the caller named, with its term extended; every other lease as it was.
abbrev pub extend : (lease_id tenant_id : ℕ) → Time → Lease → Lease
extend lease_id tenant_id until row =
    if is_lease lease_id tenant_id row then record row { expires_at = until } else row

pub record Renewed (worker_id lease_id tenant_id : ℕ) (until : Time) (db db' : Db) : Type 0 where
  pub lease : Lease
  pub held : Holds db worker_id lease_id tenant_id lease
  pub same : db' ≡ record db { leases = map (extend lease_id tenant_id until) db.leases }

abbrev pub RenewOutcome :
    (worker_id lease_id tenant_id : ℕ) → Time → Db → Result (Unit {0}) × Db → Type 0
RenewOutcome w l t until db (ok _, db') = Renewed w l t until db db'
RenewOutcome w l t until db (raise _, db') = db' ≡ db

renew_stored :
    (l t : ℕ) (duration : Duration) (now : Time) (db : Db)
    → any (is_lease l t) db.leases ≡ true
    → Leases.renew l duration t now db
      ≡ (ok tt, record db { leases = map (extend l t (now + duration)) db.leases })
unfolding Leases.renew
renew_stored l t duration now db there = rw there

-- A renewal that returns has moved the end of the lease that the caller named, which its worker held
-- in its tenant, and has changed nothing else. A renewal that raises has changed nothing.
pub renew_lease-Outcome :
    (env : Env) (worker_id lease_id tenant_id : ℕ) (duration : Duration) (db : Db)
    → RenewOutcome worker_id lease_id tenant_id
        (env.now + duration)
        db
        (renew_lease env worker_id lease_id tenant_id duration db)
unfolding renew_lease
renew_lease-Outcome env w l t duration db = elim (Option-cases (get_by_worker_id w t db)) [
  | inl e ↦ rw (e, renew_lease) refl
  | inr (lease, e) ↦ elim (Bool-cases (lease.id == l)) [
    | inr ne ↦ rw (e, renew_lease, ne) refl
    | inl eq ↦
        let held : Holds db w l t lease = get_by_worker_id-Holds w l t db lease e eq in
        let there : any (is_lease lease.id t) db.leases ≡ true =
          any-Member (is_lease lease.id t) lease db.leases held.stored
            (ground (arith, held.tenant)) in
        rw (e, renew_lease, eq, renew_stored lease.id t duration env.now db there)
          (record {
            lease = lease;
            held = held;
            same =
                ap (λ k. record db { leases = map (extend k t (env.now + duration)) db.leases })
                  held.id;
          })
  ]
]
