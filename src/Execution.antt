-- ===== src/Execution.antt =====
-- The in-process execution of jobs: app/application/services/job_execution_service.py,
-- app/application/workers/worker_execution_loop.py and app/application/services/cluster_tick_service.py.
pub mod Process
pub mod Loop
