-- ===== src/Tests.antt =====
-- The theorems at concrete inputs, and runs of the program on small data.
mod Data
mod Entities
mod Scheduling
mod Statements
mod LeaseCalls
mod Clients
mod MigrationRuns
mod JobCalls
mod Recoveries
mod Callers
mod RouteCalls
mod Rows
mod Executions
mod Agents
