-- ===== src/Checks.antt =====
-- Tests of the definitions, and the theorems at concrete inputs.
mod Ids
mod Samples
mod Memory
mod Waiting
mod Stuck
mod Pool
mod Stale
mod Round
mod Lifecycle
mod Events
mod Postgres
mod Messaging
mod Resources
mod Metrics
mod Translation
mod Runner
