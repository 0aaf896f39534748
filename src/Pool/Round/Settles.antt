-- ===== src/Pool/Round/Settles.antt =====
-- A worker leaves no task of an InMemoryTaskQueue behind (worker_pool.go, task_queue.go).
use mathlib.Core.List.{Mem}
use background_tasks.Base.{
  ◌≡◌, refl, ◌∙◌, ap, ◌⊎◌, inl, inr, true, Option, none, some, String, lookup, arith, subst,
  Bool-cases, Option-cases, seconds,
}
use background_tasks.Task.{BackgroundTask, TaskStatus, Float64, Models, is_pending}
use background_tasks.Memory.{Ref, InMemoryTaskQueue, requeue, move_to_dead_letter}
use background_tasks.Memory.Steps.{Reach, next, writes, requeues, dead_letters}
use background_tasks.Memory.NoLoss.{pending_is_queued}
use background_tasks.Pool.Execute.{
  Worker, TaskExecutor, timed_task, no_executor_error, execute_task, conclude, timed_worker,
  handle_task_error, handle_task_success,
}
use background_tasks.Pool.Round.{
  RunClock, retry_on, bury_on, fail_on, conclude_on, execute_on, queue_env,
}

-- The task of `a` has an end, or stands in the slice to be tried again.
abbrev pub Settled : InMemoryTaskQueue → Ref → Type 0
Settled q a =
    ((q.heap a).status ≡ TaskStatus.completed)
    ⊎ (((q.heap a).status ≡ TaskStatus.pending) × Mem a q.queue)
    ⊎ ((q.heap a).status ≡ TaskStatus.dead_letter)

-- `t'` may stand for the task `t` in the slice: id, priority and creation time are its own, and it
-- is not pending unless `t` is.
abbrev pub Stands : BackgroundTask → BackgroundTask → Type 0
Stands t t' =
    (t'.id ≡ t.id)
    × (t'.priority ≡ t.priority)
    × (t'.created_at ≡ t.created_at)
    × (is_pending t'.status ≡ true → is_pending t.status ≡ true)

-- The executor of a task, if there is one, leaves a task that may stand for it.
abbrev pub Leaves : BackgroundTask → Option TaskExecutor → Type 0
Leaves t none = Unit
Leaves t (some f) = Stands t (f t).0

module _ (m : Models) where
  abbrev pub Good : InMemoryTaskQueue → Ref → Type 0
  Good q a = Reach m q × Settled q a

  -- Behind Requeue the task is pending, and the map is as it was.
  retried :
      (q : InMemoryTaskQueue) (a : Ref) (t : BackgroundTask) (c : RunClock)
      → lookup t.id q.tasks ≡ some a
      → (((retry_on m q a t c).heap a).status ≡ TaskStatus.pending)
        × ((retry_on m q a t c).tasks ≡ q.tasks)
  retried q a t c found = unfold requeue in rw (found, retry_on, requeue) (ground arith, refl)

  buried :
      (q : InMemoryTaskQueue) (a : Ref) (t : BackgroundTask) (msg : String) (c : RunClock)
      → lookup t.id q.tasks ≡ some a
      → ((bury_on q a t msg c).heap a).status ≡ TaskStatus.dead_letter
  buried q a t msg c found =
      unfold move_to_dead_letter in rw (found, bury_on, move_to_dead_letter) (ground arith)

  retry-Good :
      (q : InMemoryTaskQueue) (a : Ref) (t : BackgroundTask) (c : RunClock)
      → Reach m q
      → lookup t.id q.tasks ≡ some a
      → Stands (q.heap a) t
      → Good (retry_on m q a t c) a
  retry-Good q a t c r found (_, p, s, h) =
      let (status, same) = retried q a t c found in
      let r' : Reach m (retry_on m q a t c) =
        next (next r (writes a t p s h))
          (requeues t.id (seconds t.retry_delay_seconds) c.requeued c.updated) in
      (
        r',
        inr (
            inl (
              status,
              pending_is_queued m t.id a r' (ap (λ ts. lookup t.id ts) same ∙ found)
                  (ap is_pending status),
            )),
      )

  bury-Good :
      (q : InMemoryTaskQueue) (a : Ref) (t : BackgroundTask) (msg : String) (c : RunClock)
      → Reach m q
      → lookup t.id q.tasks ≡ some a
      → Stands (q.heap a) t
      → Good (bury_on q a t msg c) a
  bury-Good q a t msg c r found (_, p, s, h) = (
    next
        (next r
          (writes a (record t { status = TaskStatus.failed }) p s (λ e. absurd (failed_is_over e))))
        (dead_letters t.id msg c.buried),
    inr (inr (buried q a t msg c found)),
  )
    where
      failed_is_over : is_pending TaskStatus.failed ≡ true → ⊥
      failed_is_over e = ground arith

  fail-Good :
      (q : InMemoryTaskQueue) (a : Ref) (t : BackgroundTask) (msg : String) (c : RunClock)
      → Reach m q
      → lookup t.id q.tasks ≡ some a
      → Stands (q.heap a) t
      → Good (fail_on m q a t msg c) a
  unfolding fail_on
  fail-Good q a t msg c r found st =
      elim (Bool-cases (m.can_retry (record t { last_error = some msg }))) [
        | inl e ↦ rw e (retry-Good q a (record t { last_error = some msg }) c r found st)
        | inr e ↦ rw e (bury-Good q a (record t { last_error = some msg }) msg c r found st)
      ]

  module _ (executors : String → Option TaskExecutor) (hundred : Float64) where
    abbrev pub IsDiscreet : BackgroundTask → Type 0
    IsDiscreet t = Leaves t (executors t.task_type)

    conclude-Good :
        (q : InMemoryTaskQueue) (a : Ref) (t : BackgroundTask) (err : Option String) (c : RunClock)
        → Reach m q
        → lookup t.id q.tasks ≡ some a
        → Stands (q.heap a) t
        → Good (conclude_on m executors hundred q a t err c) a
    conclude-Good q a t none c r found (_, p, s, h) =
        (next r (writes a _ p s (λ e. absurd (completed_is_over e))), inl (ground arith))
      where
        completed_is_over : is_pending TaskStatus.completed ≡ true → ⊥
        completed_is_over e = ground arith
    conclude-Good q a t (some msg) c r found st = fail-Good q a t msg c r found st

    execute-Good :
        (q : InMemoryTaskQueue) (a : Ref) (c : RunClock)
        → Reach m q
        → lookup (q.heap a).id q.tasks ≡ some a
        → IsDiscreet (q.heap a)
        → Good (execute_on m executors hundred q a c) a
    unfolding execute_on
    execute-Good q a c r found discreet = elim (Option-cases (executors (q.heap a).task_type)) [
      | inl e ↦
          rw (e, execute_on)
            (fail-Good q a (q.heap a) (no_executor_error (q.heap a)) c r found
              (refl, refl, refl, λ h. h))
      | inr (f, e) ↦
          let st = subst (Leaves (q.heap a)) e discreet in
          rw (e, execute_on)
            (conclude-Good q a (timed_task (f (q.heap a)).0 c.duration) (f (q.heap a)).1 c r
              (ap (λ id. lookup id q.tasks) st.0 ∙ found) st)
    ]

    -- The object ends as the task of executeTask in Pool/Execute.
    fail-task :
        (q : InMemoryTaskQueue) (a : Ref) (t : BackgroundTask) (w : Worker) (msg : String)
        (c : RunClock)
        → (handle_task_error m (queue_env m executors hundred q a c) t w msg).task
          ≡ (fail_on m q a t msg c).heap a
    unfolding fail_on handle_task_error
    fail-task q a t w msg c = elim (Bool-cases (m.can_retry (record t { last_error = some msg }))) [
      | inl e ↦ rw e refl
      | inr e ↦ rw e refl
    ]

    conclude-task :
        (q : InMemoryTaskQueue) (a : Ref) (t : BackgroundTask) (w : Worker) (err : Option String)
        (c : RunClock)
        → (conclude m (queue_env m executors hundred q a c) w c.duration c.completed t err).task
          ≡ (conclude_on m executors hundred q a t err c).heap a
    unfolding handle_task_success
    conclude-task q a t w none c = ground arith
    conclude-task q a t w (some msg) c = fail-task q a t w msg c

    execute-task :
        (q : InMemoryTaskQueue) (a : Ref) (w : Worker) (c : RunClock)
        → (execute_task m
            (queue_env m executors hundred q a c)
            executors
            w
            (q.heap a)
            c.duration
            c.completed).task
          ≡ (execute_on m executors hundred q a c).heap a
    unfolding execute_on execute_task
    execute-task q a w c = elim (Option-cases (executors (q.heap a).task_type)) [
      | inl e ↦
          rw (e, execute_task, execute_on)
            (fail-task q a (q.heap a) w (no_executor_error (q.heap a)) c)
      | inr (f, e) ↦
          rw (e, execute_task, execute_on)
            (conclude-task q a (timed_task (f (q.heap a)).0 c.duration) (timed_worker w c.duration)
              (f (q.heap a)).1 c)
    ]

    -- A worker that has a task of the queue's map leaves it settled, whatever other calls the queue
    -- has had in between: the task is completed, or pending and in the slice to be tried again, or
    -- buried, if the executor leaves its id, priority and creation time and does not make it
    -- pending. The task ends as executeTask says, and the state is one that a history of calls
    -- reaches, so no other pending task is lost and the slice is in order.
    pub execute_on_settles :
        (q : InMemoryTaskQueue) (a : Ref) (w : Worker) (c : RunClock)
        → Reach m q
        → lookup (q.heap a).id q.tasks ≡ some a
        → IsDiscreet (q.heap a)
        → let q' = execute_on m executors hundred q a c in
          Reach m q'
          × Settled q' a
          × ((execute_task m
                (queue_env m executors hundred q a c)
                executors
                w
                (q.heap a)
                c.duration
                c.completed).task
              ≡ q'.heap a)
    execute_on_settles q a w c r found discreet =
        let (r', settled) = execute-Good q a c r found discreet in
        (r', settled, execute-task q a w c)
