-- ===== src/Store/Events/Recording.antt =====
-- Recording an event about a stored job.
use aethergrid.Base.{ℕ, ◌≡◌, true, ◌==◌, ◌&&◌, arith, Member, any-Member, ok}
use aethergrid.Domain.Resources.{Time}
use aethergrid.Domain.Job.{Job}
use aethergrid.Domain.Event.{EventType}
use aethergrid.Store.{Db, references}
use aethergrid.Store.Events.{record_for_job}

pub record OnlyEvents (db db' : Db) : Type 0 where
  pub jobs : db'.jobs ≡ db.jobs
  pub nodes : db'.nodes ≡ db.nodes
  pub workers : db'.workers ≡ db.workers
  pub leases : db'.leases ≡ db.leases

pub references-Member :
    (job : Job) (db : Db)
    → Member job db.jobs
    → references (λ (j : Job). j.id) (λ j. j.tenant_id) job.id job.tenant_id db.jobs ≡ true
references-Member job db m =
    any-Member (λ (j : Job). j.id == job.id && j.tenant_id == job.tenant_id) job db.jobs m
      (ground arith)

pub record_for_job_total :
    (id : ℕ) (job : Job) (type : EventType) (now : Time) (db : Db)
    → Member job db.jobs
    → ((record_for_job id job type now db).0 ≡ ok tt)
      × OnlyEvents db (record_for_job id job type now db).1
unfolding record_for_job
record_for_job_total id job type now db m = ground (arith, references-Member job db m)
