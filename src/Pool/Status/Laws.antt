-- ===== src/Pool/Status/Laws.antt =====
-- What the average of GetWorkerStatus is an average of (worker_pool.go).
use background_tasks.Base.{
  ◌≡◌, refl, ◌∙◌, ap, ℤ, pos, negsuc, ◌+ℤ◌, quot_ℤ, true, Option, none, some, List, [], ◌∷◌, map,
  String, Time, Duration, ltb, if◌then◌else◌, is_some, arith, All, Option-cases, inl, inr,
}
use background_tasks.Task.{BackgroundTask, Models}
use background_tasks.Pool.Execute.{
  Worker, Env, TaskExecutor, execute_task, handle_task_error, handle_task_success, with_monitoring,
  announced, finish, conclude, timed_worker, timed_task, Execution,
}
use background_tasks.Pool.Status.{Entry, Job, work_through, get_worker_status}

pub total_time : List Job → Duration
total_time [] = pos 0
total_time (j ∷ jobs) = j.duration +ℤ total_time jobs

add_zero_ℤ : (a : ℤ) → a ≡ a +ℤ pos 0
add_zero_ℤ (pos n) = ground arith
add_zero_ℤ (negsuc n) = ground arith

zero_add_ℤ : (a : ℤ) → pos 0 +ℤ a ≡ a
zero_add_ℤ (pos n) = ground arith
zero_add_ℤ (negsuc n) = ground arith

add_assoc_ℤ : (a b c : ℤ) → (a +ℤ b) +ℤ c ≡ a +ℤ (b +ℤ c)
add_assoc_ℤ a b c = ground arith

with_monitoring-worker :
    (env : Env) (task : BackgroundTask) (run : Execution)
    → (with_monitoring env task run).worker ≡ run.worker
with_monitoring-worker env task run = ground arith

conclude-time :
    (m : Models) (env : Env) (w : Worker) (duration : Duration) (now : Time) (task : BackgroundTask)
    (err : Option String)
    → (conclude m env w duration now task err).worker.total_duration ≡ w.total_duration
unfolding handle_task_error handle_task_success
conclude-time m env w duration now task none = refl
conclude-time m env w duration now task (some msg) = refl

module _ (m : Models) (env : Env) (executors : String → Option TaskExecutor) where
  abbrev pub HasExecutors : List Job → Type 0
  HasExecutors = All λ j. is_some (executors j.task.task_type) ≡ true

  execute_task-time :
      (w : Worker) (j : Job)
      → is_some (executors j.task.task_type) ≡ true
      → (execute_task m env executors w j.task j.duration j.now).worker.total_duration
        ≡ w.total_duration +ℤ j.duration
  unfolding execute_task
  execute_task-time w j known = elim (Option-cases (executors j.task.task_type)) [
    | inl e ↦ absurd (unknown e)
    | inr (executor, e) ↦
        let result = executor j.task in
        let run = announced env w j.task (finish m env w j.duration j.now result) in
        rw (e, execute_task)
          (ap (λ v. v.total_duration) (with_monitoring-worker env j.task run)
            ∙ conclude-time m env (timed_worker w j.duration) j.duration j.now
                (timed_task result.0 j.duration) result.1)
  ]
    where
      unknown : executors j.task.task_type ≡ none → ⊥
      unknown e = ground arith

  work_through-time :
      (w : Worker) (jobs : List Job)
      → HasExecutors jobs
      → (work_through m env executors w jobs).total_duration ≡ w.total_duration +ℤ total_time jobs
  unfolding work_through total_time
  work_through-time w [] known = add_zero_ℤ w.total_duration
  work_through-time w (j ∷ jobs) (known, rest) =
      let w' = (execute_task m env executors w j.task j.duration j.now).worker in
      work_through-time w' jobs rest
      ∙ ap (λ d. d +ℤ total_time jobs) (execute_task-time w j known)
      ∙ add_assoc_ℤ w.total_duration j.duration (total_time jobs)

  -- A worker that starts with no time and then executes tasks of types that have executors is shown
  -- by GetWorkerStatus with the time of all its tasks, the failed ones too, divided by the number of
  -- those that completed, or with 0 if none did.
  pub average_over_completed :
      (e : Entry) (jobs : List Job)
      → HasExecutors jobs
      → e.worker.total_duration ≡ pos 0
      → let w = work_through m env executors e.worker jobs in
        map (λ s. s.avg_task_duration) (get_worker_status (record e { worker = w } ∷ []))
        ≡ (if ltb 0 w.tasks_completed
            then quot_ℤ (total_time jobs) (pos w.tasks_completed)
            else pos 0)
          ∷ []
  unfolding get_worker_status
  average_over_completed e jobs known fresh =
      let w = work_through m env executors e.worker jobs in
      let total = work_through-time e.worker jobs known in
      ap (λ d. (if ltb 0 w.tasks_completed then quot_ℤ d (pos w.tasks_completed) else pos 0) ∷ [])
        (total ∙ ap (λ d. d +ℤ total_time jobs) fresh ∙ zero_add_ℤ (total_time jobs))
