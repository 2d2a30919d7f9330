-- ===== src/Recovery.antt =====
-- The repair of what failed workers and nodes leave behind: `reclaim_job` of
-- app/application/services/job_execution_support.py, and app/application/reconciliation.
pub mod Reclaim
pub mod ExpiredLeases
pub mod Invariants
pub mod LiveLeases
pub mod OfflineNodes
