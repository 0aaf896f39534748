-- ===== src/Checks/Postgres.antt =====
-- PostgresTaskQueue over a repository that is a list of tasks: the theorems at concrete inputs.
use background_tasks.Base.{
  ◌≡◌, refl, ◌⊎◌, pos, none, some, List, [], ◌∷◌, ◌++◌, ◌*◌, second, since, ◌<ℤ◌, if◌then◌else◌,
}
use background_tasks.Task.{BackgroundTask, TaskPriority, TaskStatus, is_pending}
use background_tasks.Memory.{increment}
use background_tasks.Postgres.{
  ok, failed, TaskRepository, PostgresTaskQueue, new_postgres_task_queue, enqueue, get_queue_depth,
}
use background_tasks.Postgres.Cache.{counted_in, CountedIn}
use background_tasks.Base.Places.{first}
use background_tasks.Postgres.Depth.{
  Asking, Steps, begin as begin_asking, next, reads, fills, depth_was_counted_between,
}
use background_tasks.Checks.Samples.{sample_task}

abbrev pending_in : List BackgroundTask → List BackgroundTask
pending_in [] = []
pending_in (t ∷ ts) = let rest = pending_in ts in if is_pending t.status then t ∷ rest else rest

abbrev pub list_repository : TaskRepository (List BackgroundTask)
list_repository = record {
  create = λ ts t. (ts ++ t ∷ [], none);
  update_task = λ ts t. (ts, none);
  log_event = λ ts id event details worker. ts;
  get_by_id = λ ts id. failed "not indexed";
  claim_next = λ ts worker cpu memory. (ts, ok none);
  get_pending_tasks = λ ts n. ok (pending_in ts);
  get_by_status = λ ts status limit offset. ok (pending_in ts);
  bury = λ ts id reason. (ts, none);
  count_by_status = λ ts. failed "not counted";
}

abbrev q0 : PostgresTaskQueue (List BackgroundTask)
q0 = new_postgres_task_queue []

abbrev new_task : BackgroundTask
new_task = sample_task "a" TaskPriority.high

abbrev q1 : PostgresTaskQueue (List BackgroundTask)
q1 = (enqueue list_repository q0 (some new_task) (60 * second)).0

abbrev q2 : PostgresTaskQueue (List BackgroundTask)
q2 = (get_queue_depth list_repository q1 (61 * second) (61 * second)).0

depth_of_one :
    (get_queue_depth list_repository q2 (63 * second) (63 * second)).1
    ≡ ok ((TaskPriority.high, 1) ∷ [])
unfolding enqueue get_queue_depth increment
depth_of_one = refl

-- A goroutine reads the counts of a repository with one task.
abbrev pending_task : BackgroundTask
pending_task = record new_task { status = TaskStatus.pending }

abbrev reading :
    (s : Asking (List BackgroundTask)) × Steps list_repository
      ((pending_task ∷ []) ∷ (pending_task ∷ []) ∷ [])
      s
unfolding increment
reading = (_, next (begin_asking (pending_task ∷ [])) (reads ((TaskPriority.high, 1) ∷ []) refl))

-- The counts reach the cache, and are answered three seconds later.
abbrev cached :
    (s : Asking (List BackgroundTask)) × Steps list_repository
      ((pending_task ∷ []) ∷ (pending_task ∷ []) ∷ (pending_task ∷ []) ∷ [])
      s
unfolding reading
cached = (_, next reading.1 (fills (60 * second) first))

cached_depth :
    (get_queue_depth list_repository cached.0.queue (63 * second) (63 * second)).1
    ≡ ok ((TaskPriority.high, 1) ∷ [])
unfolding cached get_queue_depth
cached_depth = refl

depth_was_counted_between_example :
    CountedIn list_repository
      ((pending_task ∷ []) ∷ (pending_task ∷ []) ∷ (pending_task ∷ []) ∷ [])
      ((TaskPriority.high, 1) ∷ [])
    × ((counted_in list_repository cached.0.queue.store ≡ ok ((TaskPriority.high, 1) ∷ []))
        ⊎ (since (63 * second) cached.0.queue.depth_cache_time <ℤ pos (5 * second)))
depth_was_counted_between_example =
    depth_was_counted_between list_repository (63 * second) (63 * second)
      ((TaskPriority.high, 1) ∷ []) cached.1 cached_depth
