-- ===== src/Memory/Counts.antt =====
-- GetPendingCount and GetQueueDepth of InMemoryTaskQueue (task_queue.go) agree.
use background_tasks.Base.{ℕ, suc, ◌+◌, ◌≡◌, Bool, ◌&&◌, [], ◌∷◌, arith, if◌then◌else◌}
use background_tasks.Task.{BackgroundTask, TaskPriority, is_pending, priority_eq, priority_eq_iff}
use background_tasks.Memory.{
  Heap, TaskMap, InMemoryTaskQueue, DepthMap, count_where, get_pending_count, increment, depth_from,
  get_queue_depth,
}

-- counts[p], which is 0 for a missing key.
unfoldable pub depth_at : TaskPriority → DepthMap → ℕ
depth_at p [] = 0
depth_at p ((k, n) ∷ c) = if priority_eq k p then n else depth_at p c

unfoldable pub total : DepthMap → ℕ
total [] = 0
total ((k, n) ∷ c) = n + total c

depth_at-increment :
    (p k : TaskPriority) (c : DepthMap)
    → depth_at p (increment k c) ≡ (if priority_eq k p then suc (depth_at p c) else depth_at p c)
unfolding depth_at increment
depth_at-increment p k [] = ground arith
depth_at-increment p k ((j, n) ∷ c) =
    ground (
      arith,
      priority_eq_iff j k,
      priority_eq_iff k p,
      priority_eq_iff j p,
      depth_at-increment p k c,
    )

pub total-increment : (k : TaskPriority) (c : DepthMap) → total (increment k c) ≡ suc (total c)
unfolding total increment
total-increment k [] = omega arith
total-increment k ((j, n) ∷ c) = ground (arith, total-increment k c)

abbrev pending_at : TaskPriority → BackgroundTask → Bool
pending_at p t = is_pending t.status && priority_eq t.priority p

depth_at-depth_from :
    (p : TaskPriority) (h : Heap) (m : TaskMap) (c : DepthMap)
    → depth_at p (depth_from h m c) ≡ depth_at p c + count_where (pending_at p) h m
unfolding depth_from count_where
depth_at-depth_from p h [] c = omega arith
depth_at-depth_from p h ((k, a) ∷ m) c = ground (
  arith,
  depth_at-depth_from p h m c,
  depth_at-depth_from p h m (increment (h a).priority c),
  depth_at-increment p (h a).priority c,
)

total-depth_from :
    (h : Heap) (m : TaskMap) (c : DepthMap)
    → total (depth_from h m c) ≡ total c + count_where (λ t. is_pending t.status) h m
unfolding depth_from count_where
total-depth_from h [] c = omega arith
total-depth_from h ((k, a) ∷ m) c = ground (
  arith,
  total-depth_from h m c,
  total-depth_from h m (increment (h a).priority c),
  total-increment (h a).priority c,
)

-- GetQueueDepth reports for every priority the number of the map's pending tasks that have it, and
-- its counts add up to GetPendingCount.
pub get_queue_depth_exact :
    (q : InMemoryTaskQueue)
    → ((p : TaskPriority)
        → depth_at p (get_queue_depth q) ≡ count_where (pending_at p) q.heap q.tasks)
      × (total (get_queue_depth q) ≡ get_pending_count q)
unfolding get_queue_depth get_pending_count
get_queue_depth_exact q = (
  λ p. unfold depth_at in omega (arith, depth_at-depth_from p q.heap q.tasks []),
  unfold total in omega (arith, total-depth_from q.heap q.tasks []),
)
