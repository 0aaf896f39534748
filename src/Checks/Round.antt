-- ===== src/Checks/Round.antt =====
-- A worker takes a task of an InMemoryTaskQueue and executes it: runs, and the theorem at a concrete
-- input.
use background_tasks.Base.{◌≡◌, refl, pos, Option, some, [], ◌∷◌, String, lookup, insert}
use background_tasks.Task.{TaskPriority, TaskStatus}
use background_tasks.Memory.{
  Heap, InMemoryTaskQueue, enqueue_ref, dequeue, requeue, scan, is_eligible, sort_queue,
  new_in_memory_task_queue,
}
use background_tasks.Memory.Exchange.{exchange_sort}
use background_tasks.Memory.Steps.{Reach, start, next, enqueues, dequeues}
use background_tasks.Pool.Execute.{Worker, TaskExecutor, execute_task}
use background_tasks.Pool.Round.{RunClock, fail_on, execute_on, queue_env}
use background_tasks.Pool.Round.Settles.{Settled, execute_on_settles}
use background_tasks.Checks.Samples.{sample_models, sample_task, no_limits}

abbrev objects : Heap
objects a = sample_task "a" TaskPriority.low

abbrev taken : InMemoryTaskQueue
taken =
    (dequeue
      (enqueue_ref sample_models (new_in_memory_task_queue objects) 0
        (record { stamp = 1; created = 10; updated = 10 }))
      "w1" no_limits (λ i. 40) 41).0

abbrev taken-Reach : Reach sample_models taken
taken-Reach =
    next (next (start objects) (enqueues 0 (record { stamp = 1; created = 10; updated = 10 })))
      (dequeues "w1" no_limits (λ i. 40) 41)

-- An executor that always fails.
abbrev fails : TaskExecutor
fails t = (t, some "no route to host")

abbrev executors : String → Option TaskExecutor
executors type = some fails

abbrev clock : RunClock
clock = record { duration = pos 9; completed = 50; requeued = 51; updated = 52; buried = 53 }

abbrev worker : Worker
worker = record { id = "w1"; tasks_completed = 0; tasks_failed = 0; total_duration = pos 0 }

taken_is_running : (taken.heap 0).status ≡ TaskStatus.running
unfolding enqueue_ref dequeue scan sort_queue exchange_sort is_eligible
taken_is_running = refl

put_back : (execute_on sample_models executors 100000 taken 0 clock).queue ≡ 0 ∷ []
unfolding execute_on fail_on requeue lookup insert enqueue_ref dequeue scan sort_queue exchange_sort
    is_eligible
put_back = refl

taken_known : lookup (taken.heap 0).id taken.tasks ≡ some 0
unfolding enqueue_ref dequeue scan sort_queue exchange_sort is_eligible lookup insert
taken_known = refl

execute_on_settles_example :
    let q' = execute_on sample_models executors 100000 taken 0 clock in
    Reach sample_models q'
    × Settled q' 0
    × ((execute_task sample_models
          (queue_env sample_models executors 100000 taken 0 clock)
          executors
          worker
          (taken.heap 0)
          (pos 9)
          50).task
        ≡ q'.heap 0)
execute_on_settles_example =
    execute_on_settles sample_models executors 100000 taken 0 worker clock taken-Reach taken_known
      (refl, refl, refl, λ h. h)
