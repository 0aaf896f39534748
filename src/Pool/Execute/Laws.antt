-- ===== src/Pool/Execute/Laws.antt =====
-- What one execution does to the task, the worker's counters and the outside (worker_pool.go).
use background_tasks.Base.{
  ℕ, suc, ◌+◌, ◌≡◌, refl, sym, ◌∙◌, inl, inr, Bool, Option, none, some, [], ◌∷◌, ◌++◌, String, Time,
  Duration, arith, if◌then◌else◌, Option-cases, is_some,
}
use background_tasks.Task.{BackgroundTask, Models}
use background_tasks.Pool.Execute.{
  Env, Worker, Execution, monitoring_stopped, counted, task_duration, only_if, TaskExecutor,
  handle_task_success, handle_task_error, finish, with_monitoring, execute_task, timed_task,
  timed_worker, no_executor_error, announced,
}
use background_tasks.Pool.Execute.Tally.{tally, tally-append, disposal, starts, stops, runs}

-- Counters and disposals of a run, from those of the worker.
abbrev pub SettledOnce : Worker → Execution → Type 0
SettledOnce w r =
    (r.worker.tasks_completed + r.worker.tasks_failed ≡ suc (w.tasks_completed + w.tasks_failed))
    × (tally disposal r.effects ≡ 1)
    × (tally starts r.effects ≡ 0)
    × (tally stops r.effects ≡ 0)
    × (tally runs r.effects ≡ 0)

module _ (m : Models) (env : Env) where
  error_settles :
      (task : BackgroundTask) (w : Worker) (msg : String)
      → SettledOnce w (handle_task_error m env task w msg)
  unfolding handle_task_error
  error_settles task w msg = ground arith

  success_settles :
      (task : BackgroundTask) (w : Worker) (duration : Duration) (now : Time)
      → SettledOnce w (handle_task_success env task w duration now)
  unfolding handle_task_success
  success_settles task w duration now = ground arith

  -- The observation of the duration, behind the effects of a run, disposes of nothing.
  observed_settles :
      (w w' : Worker) (r : Execution) (b : Bool) (type : String)
      → w'.tasks_completed ≡ w.tasks_completed
      → w'.tasks_failed ≡ w.tasks_failed
      → SettledOnce w' r
      → SettledOnce w (record r { effects = r.effects ++ only_if b (counted (task_duration type)) })
  observed_settles w w' r b type c f (n, d, a, z, e) = (
    omega arith,
    tally-append disposal r.effects _ ∙ ground arith,
    tally-append starts r.effects _ ∙ ground arith,
    tally-append stops r.effects _ ∙ ground arith,
    tally-append runs r.effects _ ∙ ground arith,
  )

  finish_settles :
      (w : Worker) (duration : Duration) (now : Time) (t : BackgroundTask) (err : Option String)
      → SettledOnce w (finish m env w duration now (t, err))
  finish_settles w duration now t none =
      observed_settles w (timed_worker w duration)
        (handle_task_success env (timed_task t duration) (timed_worker w duration) duration now)
        env.has_metrics _ refl refl
        (success_settles (timed_task t duration) (timed_worker w duration) duration now)
  finish_settles w duration now t (some msg) =
      observed_settles w (timed_worker w duration)
        (handle_task_error m env (timed_task t duration) (timed_worker w duration) msg)
        env.has_metrics _ refl refl
        (error_settles (timed_task t duration) (timed_worker w duration) msg)

  -- With the monitoring around it a run starts it as often as it stops it.
  monitored_settles :
      (w : Worker) (task : BackgroundTask) (r : Execution) (k : ℕ)
      → r.worker.tasks_completed + r.worker.tasks_failed ≡ suc (w.tasks_completed + w.tasks_failed)
      → tally disposal r.effects ≡ 1
      → tally starts r.effects ≡ 0
      → tally stops r.effects ≡ 0
      → tally runs r.effects ≡ k
      → let r' = with_monitoring env task r in
        (r'.worker.tasks_completed + r'.worker.tasks_failed
          ≡ suc (w.tasks_completed + w.tasks_failed))
        × (tally disposal r'.effects ≡ 1)
        × (tally starts r'.effects ≡ tally stops r'.effects)
        × (tally runs r'.effects ≡ k)
  monitored_settles w task r k n d a z e = (
    ground arith,
    ground (arith, tally-append disposal r.effects (monitoring_stopped r.task.id ∷ [])),
    ground (
      arith,
      tally-append starts r.effects (monitoring_stopped r.task.id ∷ []),
      tally-append stops r.effects (monitoring_stopped r.task.id ∷ []),
    ),
    ground (arith, tally-append runs r.effects (monitoring_stopped r.task.id ∷ [])),
  )

  -- One call of executeTask counts the task once, as completed or as failed, and disposes of it
  -- once: stored as completed, given back to the queue, or moved to the dead letters. Monitoring
  -- is stopped as often as it is started, and the executor runs once if there is one.
  pub execute_settles :
      (executors : String → Option TaskExecutor) (w : Worker) (task : BackgroundTask)
      (duration : Duration) (now : Time)
      → let r = execute_task m env executors w task duration now in
        (r.worker.tasks_completed + r.worker.tasks_failed
          ≡ suc (w.tasks_completed + w.tasks_failed))
        × (tally disposal r.effects ≡ 1)
        × (tally starts r.effects ≡ tally stops r.effects)
        × (tally runs r.effects ≡ (if is_some (executors task.task_type) then 1 else 0))
  execute_settles executors w task duration now = elim (Option-cases (executors task.task_type)) [
    | inl e ↦
        let (n, d, a, z, k) = error_settles task w (no_executor_error task) in
        unfold execute_task in rw (e, execute_task) (n, d, a ∙ sym z, k)
    | inr (f, e) ↦
        let (n, d, a, z, k) = finish_settles w duration now (f task).0 (f task).1 in
        unfold execute_task in
        rw (e, execute_task)
          (monitored_settles w task (announced env w task (finish m env w duration now (f task))) 1
            n (ground arith) (ground arith) (ground arith) (ground arith))
  ]
