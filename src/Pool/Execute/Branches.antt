-- ===== src/Pool/Execute/Branches.antt =====
-- What one execution does on success, on a failure that is retried and on one that is not
-- (worker_pool.go).
use background_tasks.Base.{
  suc, ◌≡◌, refl, true, false, Option, none, some, String, Time, Duration, arith, seconds,
}
use background_tasks.Task.{BackgroundTask, TaskStatus, Models}
use background_tasks.Pool.Execute.{
  Env, Worker, TaskExecutor, handle_task_success, handle_task_error, execute_task,
}
use background_tasks.Pool.Execute.Tally.{tally, requeues, burials, stores}

module _ (m : Models) (env : Env) where
  -- A task whose executor succeeds ends as completed at 100 percent, counted as completed, stored
  -- once, and neither requeued nor buried.
  pub execute_success :
      (executors : String → Option TaskExecutor) (w : Worker) (task : BackgroundTask)
      (duration : Duration) (now : Time) (f : TaskExecutor)
      → executors task.task_type ≡ some f
      → (f task).1 ≡ none
      → let r = execute_task m env executors w task duration now in
        (r.task.status ≡ TaskStatus.completed)
        × (r.task.progress ≡ env.hundred)
        × (r.worker.tasks_completed ≡ suc w.tasks_completed)
        × (r.worker.tasks_failed ≡ w.tasks_failed)
        × (tally stores r.effects ≡ 1)
        × (tally requeues r.effects ≡ 0)
        × (tally burials r.effects ≡ 0)
  execute_success executors w task duration now f e ok =
      unfold execute_task handle_task_success in
      rw (e, execute_task)
        (
          ground arith,
          ground arith,
          ground arith,
          ground arith,
          ground arith,
          ground arith,
          ground arith,
        )

  -- A failed task that can be retried goes back to the queue with its delay; it is not buried, and
  -- its error is not stored: no Update is made.
  pub retry_not_stored :
      (w : Worker) (task : BackgroundTask) (msg : String)
      → m.can_retry (record task { last_error = some msg }) ≡ true
      → let r = handle_task_error m env task w msg in
        (r.task
          ≡ env.on_requeue
              (record task { last_error = some msg })
              (seconds task.retry_delay_seconds))
        × (tally stores r.effects ≡ 0)
        × (tally requeues r.effects ≡ 1)
        × (tally burials r.effects ≡ 0)
  unfolding handle_task_error
  retry_not_stored w task msg c = rw c (refl, ground arith, ground arith, ground arith)

  -- A failed task that cannot be retried is stored once, as failed, and buried once.
  pub give_up_buries :
      (w : Worker) (task : BackgroundTask) (msg : String)
      → m.can_retry (record task { last_error = some msg }) ≡ false
      → let r = handle_task_error m env task w msg in
        (r.task
          ≡ env.on_dead_letter
              (record task { last_error = some msg; status = TaskStatus.failed })
              msg)
        × (tally stores r.effects ≡ 1)
        × (tally requeues r.effects ≡ 0)
        × (tally burials r.effects ≡ 1)
  unfolding handle_task_error
  give_up_buries w task msg c = rw c (refl, ground arith, ground arith, ground arith)
