-- ===== src/Pool.antt =====
-- AdaptiveWorkerPool (worker_pool.go), in parts: waiting for a task (Wait), the number of workers
-- (Scale), the execution of a task (Execute), the stuck tasks (Stale) and the life of a worker among the others (Workers).
pub mod Wait
pub mod WaitMany
pub mod Reporter
pub mod Status
pub mod Scale
pub mod Execute
pub mod Stale
pub mod Round
pub mod Workers
pub mod Lifecycle
