-- ===== src/Runner.antt =====
-- The challenge runner (challenges/runner/main.go), which drives the package: its repository, and the
-- sections that call the queue.
pub mod Repository
pub mod Queueing
pub mod Locales
pub mod Detecting
pub mod Monitoring
pub mod Routing
