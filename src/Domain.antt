-- ===== src/Domain.antt =====
-- app/domain: the entities, their value objects and the domain services, with no storage behind
-- them. Identifiers (UUIDs) are naturals, since the code only compares them; an instant is the
-- microseconds since the epoch and a duration is a count of microseconds. What `utc_now()`,
-- `uuid4()` and `random` return are arguments.
pub mod Resources
pub mod Job
pub mod Node
pub mod Worker
pub mod Lease
pub mod Event
pub mod Scheduler
