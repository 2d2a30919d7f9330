-- ===== src/Store/Events.antt =====
-- app/infrastructure/repositories/postgres_event_repository.py and
-- app/application/services/record_job_events_service.py
pub mod Recording
use aethergrid.Base.{
  ℕ, Bool, not, List, ◌∷◌, ◌==◌, ◌&&◌, [], ◌++◌, if◌then◌else◌, any, filter, Action, ok, raise,
  foreign_key_violation,
}
use aethergrid.Domain.Resources.{Time}
use aethergrid.Domain.Job.{Job}
use aethergrid.Domain.Event.{Event, EventType}
use aethergrid.Store.{Db, references}

-- `INSERT … ON CONFLICT (id) DO NOTHING`, under the key `events_job_same_tenant`.
unfoldable pub save : Event → Action Db (Unit {0})
save event db =
    if any (λ row. row.id == event.id) db.events
    then (ok tt, db)
    else if not (
        references (λ (j : Job). j.id) (λ j. j.tenant_id) event.aggregate_id event.tenant_id
          db.jobs)
    then (raise foreign_key_violation, db)
    else (ok tt, record db { events = db.events ++ event ∷ [] })

unfoldable pub list_by_aggregate : ℕ → ℕ → Db → List Event
list_by_aggregate aggregate_id tenant_id db =
    filter (λ row. row.aggregate_id == aggregate_id && row.tenant_id == tenant_id) db.events

-- `RecordJobEventsService.record_for_job`. `id` is what `EventId.new()` returns.
unfoldable pub record_for_job : (id : ℕ) → Job → EventType → Time → Action Db (Unit {0})
unfolding save
record_for_job id job event_type now = save (record {
  id = id;
  aggregate_id = job.id;
  event_type = event_type;
  tenant_id = job.tenant_id;
  occurred_at = now;
})
