-- ===== src/Agent.antt =====
-- scripts/run_agent.py: the process that executes the jobs of one worker and speaks to the API over HTTP.
pub mod Retry
pub mod Renewal
pub mod Polling
