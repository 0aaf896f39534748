-- ===== src/Pool/Round.antt =====
-- The end of executeTask where the pool works on an InMemoryTaskQueue (worker_pool.go,
-- task_queue.go): the task is the object in the queue's heap, which the pool, the executor, Requeue
-- and MoveToDeadLetter write one after the other. Repository, notifier and metrics play no part.
pub mod Settles
use background_tasks.Base.{
  ◌≡◌, Bool, true, false, Option, none, some, List, [], ◌∷◌, String, Time, Duration, seconds,
  if◌then◌else◌,
}
use background_tasks.Task.{BackgroundTask, TaskStatus, Float64, Models}
use background_tasks.Memory.{Ref, update, InMemoryTaskQueue, requeue, move_to_dead_letter}
use background_tasks.Pool.Execute.{Env, TaskExecutor, timed_task, no_executor_error}

-- How long the executor took, and the instants that are read after it.
pub record RunClock : Type 0 where
  pub duration : Duration
  pub completed : Time
  pub requeued : Time
  pub updated : Time
  pub buried : Time

abbrev pub write : InMemoryTaskQueue → Ref → BackgroundTask → InMemoryTaskQueue
write q a t = record q { heap = update q.heap a t }

-- The two branches of handleTaskError, where `t` is the task with its error.
abbrev pub retry_on :
    Models → InMemoryTaskQueue → Ref → BackgroundTask → RunClock → InMemoryTaskQueue
retry_on m q a t c =
    (requeue m (write q a t) t.id (seconds t.retry_delay_seconds) c.requeued c.updated).0

abbrev pub bury_on :
    InMemoryTaskQueue → Ref → BackgroundTask → String → RunClock → InMemoryTaskQueue
bury_on q a t msg c =
    (move_to_dead_letter (write q a (record t { status = TaskStatus.failed })) t.id msg c.buried).0

unfoldable pub fail_on :
    Models → InMemoryTaskQueue → Ref → BackgroundTask → String → RunClock → InMemoryTaskQueue
fail_on m q a t msg c =
    let t' = record t { last_error = some msg } in
    if m.can_retry t' then retry_on m q a t' c else bury_on q a t' msg c

module _ (m : Models) (executors : String → Option TaskExecutor) (hundred : Float64) where
  -- handleTaskSuccess or handleTaskError, by what Execute returned.
  abbrev pub conclude_on :
      InMemoryTaskQueue → Ref → BackgroundTask → Option String → RunClock → InMemoryTaskQueue
  conclude_on q a t none c = write q a (record t {
    status = TaskStatus.completed;
    completed_at = some c.completed;
    progress = hundred;
  })
  conclude_on q a t (some msg) c = fail_on m q a t msg c

  unfoldable pub execute_on : InMemoryTaskQueue → Ref → RunClock → InMemoryTaskQueue
  execute_on q a c = elim (executors (q.heap a).task_type) [
    | none ↦ fail_on m q a (q.heap a) (no_executor_error (q.heap a)) c
    | some f ↦ let (t, err) = f (q.heap a) in conclude_on q a (timed_task t c.duration) err c
  ]

  -- The queue as Pool/Execute sees it from the task of `a`.
  abbrev pub queue_env : InMemoryTaskQueue → Ref → RunClock → Env
  queue_env q a c = record {
    has_monitor = false;
    has_notifier = false;
    has_metrics = false;
    on_requeue = λ t delay. (requeue m (write q a t) t.id delay c.requeued c.updated).0.heap a;
    on_dead_letter = λ t msg. (move_to_dead_letter (write q a t) t.id msg c.buried).0.heap a;
    hundred = hundred;
  }
