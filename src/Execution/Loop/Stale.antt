-- ===== src/Execution/Loop/Stale.antt =====
-- An iteration that has lost its lease writes no outcome.
use aethergrid.Base.{
  ℕ, ◌≡◌, ◌⊎◌, inl, inr, refl, sym, subst, ◌∙◌, true, some, Result, Bool-cases, Error, ok, raise,
  Action, bind_ok, bind_raise, ◌>>=◌, ◌>>◌, call, gets, call-Keeps, Member, arith, lease_not_found,
  os_error,
}
use aethergrid.Domain.Resources.{Time}
use aethergrid.Domain.Job.{Job}
use aethergrid.Domain.Worker.{Worker}
use aethergrid.Domain.Event.{EventType}
use aethergrid.Domain.Lease.{Lease}
use aethergrid.Store.{Db}
use aethergrid.Store.Jobs
use aethergrid.Store.Workers
use aethergrid.Store.Events
use aethergrid.Store.Events.Recording.{OnlyEvents}
use aethergrid.Service.Env.{Env}
use aethergrid.Service.Leases.{release_lease}
use aethergrid.Service.Leases.Fencing.{Holds}
use aethergrid.Service.Outcome.{release_node}
use aethergrid.Service.Outcome.Fenced.{Refused, release_lease-Refused}
use aethergrid.Execution.Process.{LaunchError, JobExecutionResult, Outcome, returned, raised}
use aethergrid.Execution.Loop.{
  Iteration, Renewal, conclude, record_outcome, transition, event_of, keep_request,
}

-- The call raises, and of the database `db` at most the events have changed.
abbrev pub IsDropped : {A : Type 0} → Db → Result A × Db → Type 0
IsDropped db r = ((x : Error) × (r.0 ≡ raise x)) × OnlyEvents db r.1

OnlyEvents-trans : (a b c : Db) → OnlyEvents a b → OnlyEvents b c → OnlyEvents a c
OnlyEvents-trans a b c h k = record {
  jobs = k.jobs ∙ h.jobs;
  nodes = k.nodes ∙ h.nodes;
  workers = k.workers ∙ h.workers;
  leases = k.leases ∙ h.leases;
}

record_for_job-OnlyEvents :
    (id : ℕ) (job : Job) (type : EventType) (now : Time) (db : Db)
    → OnlyEvents db (Events.record_for_job id job type now db).1
unfolding Events.record_for_job
record_for_job-OnlyEvents id job type now db = ground arith

bind-IsDropped :
    {A B : Type 0} (db : Db) (m : Action Db A) (k : A → Action Db B) (d : Db)
    → OnlyEvents db (m d).1
    → ((a : A) (d' : Db) → OnlyEvents db d' → IsDropped db (k a d'))
    → IsDropped db ((m >>= k) d)
bind-IsDropped {A} {B} db m k d o h = bound (m d).0 (m d).1 refl o
  where
    bound : (r : Result A) (d' : Db) → m d ≡ (r, d') → OnlyEvents db d' → IsDropped db ((m >>= k) d)
    bound (ok a) d' e o = subst (IsDropped db) (sym (bind_ok m d d' a k e)) (h a d' o)
    bound (raise x) d' e o = subst (IsDropped db) (sym (bind_raise m d d' x k e)) ((x, refl), o)

Refused-IsDropped :
    {A B : Type 0} (db d : Db) (m : Action Db A) (k : A → Action Db B)
    → OnlyEvents db d
    → Refused m d
    → IsDropped db ((m >>= k) d)
Refused-IsDropped db d m k o (x, e) =
    subst (IsDropped db) (sym (bind_raise m d d x k e)) ((x, refl), o)

module _ (env : Env) (worker : Worker) (result : JobExecutionResult) (l t : ℕ) (db : Db)
    (gone : (lease : Lease) → ¬ Holds db worker.id l t lease) where
  still_gone : (d : Db) → OnlyEvents db d → (lease : Lease) → ¬ Holds d worker.id l t lease
  still_gone d o lease h = gone lease (record {
    stored = subst (Member lease) o.leases h.stored;
    id = h.id;
    worker = h.worker;
    tenant = h.tenant;
  })

  -- What `record_outcome` does behind the release, behind the event and behind the transition.
  behind_release : Worker → Job → Unit {0} → Action Db (Unit {0})
  behind_release worker' job _ =
      Workers.save worker'
      >> (release_node job t
          >> (gets (Jobs.get_by_id job.id t) >>= λ current. Jobs.save (keep_request current job)))

  behind_event : Worker → Job → Unit {0} → Action Db (Unit {0})
  unfolding behind_release
  behind_event worker' job _ = release_lease env worker.id l t >>= behind_release worker' job

  behind_transition : Worker × Job → Action Db (Unit {0})
  unfolding behind_event
  behind_transition x =
      Events.record_for_job (env.fresh 1) x.1 (event_of result) env.now >>= behind_event x.0 x.1

  recorded-IsDropped :
      (x : Worker × Job) (d : Db) → OnlyEvents db d → IsDropped db (behind_transition x d)
  unfolding behind_transition
  recorded-IsDropped x d o =
      bind-IsDropped db (Events.record_for_job (env.fresh 1) x.1 (event_of result) env.now)
        (behind_event x.0 x.1) d
        (OnlyEvents-trans db d _ o
          (record_for_job-OnlyEvents (env.fresh 1) x.1 (event_of result) env.now d))
        λ _ d' o'.
          Refused-IsDropped db d' (release_lease env worker.id l t) (behind_release x.0 x.1) o'
            (release_lease-Refused env worker.id l t d' (still_gone d' o'))

  record_outcome-IsDropped : IsDropped db (record_outcome env worker result l t db)
  unfolding record_outcome behind_transition
  record_outcome-IsDropped =
      bind-IsDropped db (call (transition result env.now) worker) behind_transition db
        ((call-Keeps (OnlyEvents db) (transition result env.now) worker).keeps db
          (record { jobs = refl; nodes = refl; workers = refl; leases = refl }))
        recorded-IsDropped

Outcome-cases :
    (o : Outcome)
    → ((x : LaunchError) × (o ≡ raised x)) ⊎ ((result : JobExecutionResult) × (o ≡ returned result))
Outcome-cases (raised x) = inl (x, refl)
Outcome-cases (returned result) = inr (result, refl)

-- The iteration at the end of the command, on the database as it is then: where a renewal found another
-- lease, or the worker no longer holds the one that the iteration began with, the call raises, and of
-- the database nothing has changed but that an event may have been added.
pub conclude-IsDropped :
    (it : Iteration) (worker : Worker) (r : Renewal) (l t : ℕ) (db : Db)
    → (r.lost_lease ≡ true) ⊎ ((lease : Lease) → ¬ Holds db worker.id l t lease)
    → IsDropped db (conclude it worker r l t db)
unfolding conclude
conclude-IsDropped it worker r l t db due = elim (Outcome-cases it.outcome) [
  | inl (x, e) ↦ rw (conclude, e) ((os_error, refl), same)
  | inr (result, e) ↦ elim (Bool-cases r.lost_lease) [
    | inl lost ↦ rw (conclude, e, lost) ((lease_not_found, refl), same)
    | inr kept ↦ elim due [
      | inl lost ↦ cc
      | inr gone ↦
          rw (conclude, e, kept)
            (record_outcome-IsDropped it.env (record worker { running_job = some r.job }) result l t
              db gone)
    ]
  ]
]
  where
    same : OnlyEvents db db
    same = record { jobs = refl; nodes = refl; workers = refl; leases = refl }
