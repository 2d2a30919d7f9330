-- ===== src/Domain/Event.antt =====
-- app/domain/entities/event.py: the record of something that happened to a job. The aggregate is
-- always a job, and `aggregate_id` its identifier.
use aethergrid.Base.{ℕ}
use aethergrid.Domain.Resources.{Time}

-- The strings that the services pass for `event_type`.
pub data EventType : Type 0 where
  job_created job_scheduled job_unscheduled worker_assigned : EventType
  lease_acquired lease_released : EventType
  job_completed job_failed job_cancelled job_reclaimed : EventType

pub record Event : Type 0 where
  pub id : ℕ
  pub aggregate_id : ℕ
  pub event_type : EventType
  pub tenant_id : ℕ
  pub occurred_at : Time
