-- ===== src/Lib.antt =====
-- AetherGrid's control plane: jobs that tenants submit are placed on compute nodes, given to a worker
-- there under a lease of limited time, and taken back when the worker or the node is lost. Several
-- processes (the API, the ticks of the cluster, the agents) work on one PostgreSQL database; each
-- statement commits by itself, and no lock is held between two statements of a service.
--
-- The parts, and where they stand (paths from the repository's root):
-- - Base: Python statements that mutate a state and may raise, with the rules for what a program of
--   them keeps (Base/Invariant), lists as tables, tests on numbers and strings.
-- - Domain: app/domain. Domain/Resources is value_objects/resource_requirements.py, Domain/Job the
--   state machine of entities/job.py, Domain/Node the capacity accounting of entities/node.py,
--   Domain/Worker entities/worker.py, Domain/Lease entities/lease.py, Domain/Event entities/event.py,
--   Domain/Scheduler services/scheduler.py.
-- - Store: the tables behind app/infrastructure/repositories/postgres_*_repository.py, one module for
--   each, and app/application/services/record_job_events_service.py in Store/Events. Store/Consistent
--   is about the keys of the schema under every sequence of write statements. Store/Sqlite is
--   sqlite_job_repository.py there, the same interface over rows of texts.
-- - Service: the use cases of app/application/services. Service/Leases acquires, renews and releases
--   leases; Service/Schedule and Service/Assign are the scheduling loop; Service/Outcome is what an
--   agent reports of its job; Service/Jobs, Service/Nodes, Service/Workers and
--   Service/Cluster serve the API.
-- - Recovery: app/application/reconciliation, and `reclaim_job` of
--   app/application/services/job_execution_support.py. Both services take work back that a lease or a
--   node has lost, and race with agents that renew or report. Recovery/Invariants carries what each
--   write keeps through the loop over the expired leases.
-- - Client: integrations/resilient_client/resilient_api_client.py, the client library that partners
--   call the API with: Client/Breaker its circuit breaker, Client/Config its configuration and the
--   check of it, Client/Token the OAuth2 token, Client/Request a call with its retries.
-- - Migrations: app/infrastructure/migrations. Migrations/Load reads the directory, Migrations/Plan
--   compares it with the recorded history, Migrations/Apply runs what is pending, Migrations/Lock
--   waits for the advisory lock. Migrations/Apply also has the check of startup_check.py.
-- - Access: who may call. Access/ApiKey is entities/api_key.py with its scopes and
--   services/key_authorization.py of app/domain, Access/Tenant and Access/Keys the tables of tenants
--   and of keys, Access/Calls the four services on keys in app/application/services,
--   Access/RateLimiter rate_limiter_service.py there.
-- - Execution: Execution/Process is app/application/services/job_execution_service.py, the loop that
--   waits for a command; Execution/Loop is app/application/workers/worker_execution_loop.py with its
--   renewal thread, and cluster_tick_service.py and worker_heartbeat_loop.py.
-- - Agent: scripts/run_agent.py, the process that executes the jobs of one worker over HTTP:
--   Agent/Retry its retries, Agent/Renewal the thread that renews the lease of a job, Agent/Polling
--   the execution and the report of a job and the loop around them.
-- - Routes: app/presentation/routers, the handlers over the services: Routes/Workers workers.py,
--   Routes/Jobs jobs.py, Routes/Nodes nodes.py, Routes/Keys api_keys.py, Routes/Cluster cluster.py; each says which exception is
--   answered with which status. Routes/Auth is app/presentation/auth.py, which runs before each of
--   them.
-- - Tests: runs of the code, and the theorems at concrete clusters.
--
-- How the code corresponds. A method that mutates is an action: it takes the state and returns what
-- Python returns or raises, with the state reached by then, also behind an exception. Each Python
-- function is one function of the same name; where a body is long, its parts have names of their own
-- and the comment over each says which part it is. A service takes its repositories from the
-- database, which is its state. Identifiers and times are natural numbers (microseconds for times;
-- the addition of a timeout to the other side stands for a subtraction); what a call takes from
-- outside (the clock, new identifiers, generated names) is the record Env. The clock is read once for
-- a call: the few microseconds between two readings of one call are not modelled. Floats are a
-- parameter Float with the operations that the scheduler, or the rate limiter, calls. The loops are
-- structural recursions on the lists that the code iterates over, so there is no fuel, but for the
-- wait for the migration lock, which gets one try for each microsecond of its timeout and one more,
-- and for the wait for a command, which gets one pass for each unit of its timeout and one more: on a
-- clock that moves on from one to the next, the last of them is at the end of the timeout. What other processes commit between the rounds of a
-- reconciliation is the parameter `others`, any function on the database. What the client or the
-- agent gets for each attempt, what each round of a renewal thread or of a poll meets, what a text of
-- SQL does to a schema, what is read from a migration file, and the string and file functions of
-- Python's library are parameters of the definitions that use them.
--
-- Not modelled: PostgreSQL itself (a statement means what its text and the keys of the schema say),
-- the parsing of requests, the routes of lists, logging and metrics, the
-- keys of jobs and nodes to tenants, the ranges of the INTEGER columns (a value past them is
-- refused by the database and stored in the model), the supervisor of a command and the start of it,
-- the SQLite repositories of nodes and events, and the scripts but the agent.
pub mod Base
pub mod Domain
pub mod Routes
pub mod Agent
pub mod Store
pub mod Service
pub mod Access
pub mod Client
pub mod Migrations
pub mod Execution
pub mod Recovery
pub mod Tests
