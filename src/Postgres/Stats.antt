-- ===== src/Postgres/Stats.antt =====
-- GetStats of PostgresTaskQueue (task_queue.go).
use background_tasks.Base.{ℤ, [], Time}
use background_tasks.Task.{TaskStatus}
use background_tasks.Memory.{DepthMap}
use background_tasks.Postgres.{
  Answer, ok, failed, TaskRepository, PostgresTaskQueue, get_queue_depth,
}

pub record TaskQueueStats : Type 0 where
  pub pending_count : ℤ
  pub running_count : ℤ
  pub depth_by_priority : DepthMap
  pub status_counts : TaskStatus → ℤ

-- A depth that cannot be had is shown as empty.
abbrev pub depth_or_empty : Answer DepthMap → DepthMap
depth_or_empty (ok depth) = depth
depth_or_empty (failed e) = []

unfoldable pub get_stats :
    {R : Type 0}
    → TaskRepository R
    → PostgresTaskQueue R
    → (now later : Time) → PostgresTaskQueue R × Answer TaskQueueStats
get_stats repo q now later = elim (repo.count_by_status q.store) [
  | failed e ↦ (q, failed e)
  | ok counts ↦
      let (q', depth) = get_queue_depth repo q now later in
      (
        q',
        ok (record {
          pending_count = counts TaskStatus.pending;
          running_count = counts TaskStatus.running;
          depth_by_priority = depth_or_empty depth;
          status_counts = counts;
        }),
      )
]
