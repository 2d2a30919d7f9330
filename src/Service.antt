-- ===== src/Service.antt =====
-- app/application/services: the use cases over the store, wired as presentation/dependencies.py does
-- for PostgreSQL (every optional collaborator is there). A use case runs by itself; what other
-- processes commit between its statements is stated where it matters.
pub mod Env
pub mod Leases
pub mod Assign
pub mod Schedule
pub mod Outcome
pub mod Jobs
pub mod Nodes
pub mod Workers
pub mod Cluster
