-- ===== src/Checks/Messaging.antt =====
-- MessagingTaskQueue over both queues, and the wrapper of an executor: the theorems at concrete inputs.
use background_tasks.Base.{
  ℕ, ◌+◌, ◌≡◌, refl, pos, Bool, true, false, Option, none, some, List, [], ◌∷◌, String, ◌==◌,
  if◌then◌else◌, second, ◌*◌,
}
use background_tasks.Task.{BackgroundTask, TaskPriority}
use background_tasks.Queue.{Op, enqueues, dequeues, requeues, counts_pending}
use background_tasks.Queue
use background_tasks.Report.{Report, progress, heartbeat, Program, finish, edit, report, execute}
use background_tasks.Events.{BackgroundTaskEvent}
use background_tasks.Events
use background_tasks.Events.Publisher.{new_task_event_publisher}
use background_tasks.Memory.{new_in_memory_task_queue}
use background_tasks.Memory.AsQueue.{Objects}
use background_tasks.Memory.AsQueue as InMemory
use background_tasks.Postgres.{PostgresTaskQueue, new_postgres_task_queue}
use background_tasks.Postgres.AsQueue as Stored
use background_tasks.Messaging.{MessagingTaskQueue, new_messaging_task_queue, Stamp, run}
use background_tasks.Messaging.Refines.{on_delegate, run_refines}
use background_tasks.Messaging.Notices.{Notice, is_on, taken_on, count_notices}
use background_tasks.Messaging.Announces.{all_news, run_announces}
use background_tasks.Messaging.Executor.{Messaging, Stamps, wrapped_execute}
use background_tasks.Messaging.Executor.Laws.{
  alone, news, concluded_by, wrapped_execute_transparent, wrapped_execute_announces,
}
use background_tasks.Checks.Samples.{sample_models, sample_task, no_limits}
use background_tasks.Checks.Postgres.{list_repository}

abbrev accept_all : BackgroundTaskEvent → Option String
accept_all e = none

abbrev stamp : ℕ → String → Stamp
stamp now id = record { now = now; event_id = id }

abbrev calls : List (Op × Stamp)
calls =
    (enqueues (some (sample_task "a" TaskPriority.low)), stamp 100 "e1")
    ∷ (enqueues (some (sample_task "b" TaskPriority.high)), stamp 120 "e3")
    ∷ (dequeues "w1" no_limits, stamp 130 "e4")
    ∷ (counts_pending, stamp 140 "e5")
    ∷ []

abbrev in_memory : Objects
in_memory = record {
  queue = new_in_memory_task_queue (λ a. sample_task "" TaskPriority.normal);
  next = 0;
}

abbrev over_memory : MessagingTaskQueue Objects
over_memory = new_messaging_task_queue in_memory true none

abbrev memory_queue : Queue.TaskQueue Objects
memory_queue = InMemory.as_task_queue sample_models (λ t. t)

abbrev nowhere : Objects → String → Option BackgroundTask
nowhere d id = none

run_refines_example :
    let (q', rs) = run memory_queue nowhere accept_all over_memory calls in
    (q'.delegate, rs) ≡ Queue.run memory_queue in_memory (on_delegate calls)
run_refines_example = run_refines memory_queue nowhere accept_all over_memory calls refl

-- The sample repository finds no task by its id.
abbrev over_postgres : MessagingTaskQueue (PostgresTaskQueue (List BackgroundTask))
over_postgres = new_messaging_task_queue (new_postgres_task_queue []) true none

abbrev stored_queue : Queue.TaskQueue (PostgresTaskQueue (List BackgroundTask))
stored_queue = Stored.as_task_queue list_repository

abbrev stored_calls : List (Op × Stamp)
stored_calls =
    (enqueues (some (sample_task "a" TaskPriority.low)), stamp (60 * second) "e1")
    ∷ (enqueues none, stamp (61 * second) "e2")
    ∷ (requeues "a" (pos 5), stamp (62 * second) "e3")
    ∷ []

abbrev is_created : Notice → Bool
is_created n = elim n.0 [ Events.created ↦ true | _ ↦ false ]

run_announces_example :
    taken_on is_created
      (run stored_queue
        (Stored.find list_repository)
        accept_all
        over_postgres
        stored_calls).0.publisher
    ≡ taken_on is_created over_postgres.publisher
      + (if is_on over_postgres.publisher
          then count_notices is_created (
              all_news stored_queue
                (Stored.find list_repository)
                over_postgres.delegate
                (on_delegate stored_calls))
          else 0)
run_announces_example =
    run_announces stored_queue (Stored.find list_repository) accept_all is_created over_postgres
      stored_calls refl

-- A delegate reporter that counts the reports and rejects the third.
abbrev counting : ℕ → Report → ℕ × Option String
counting n r = if n == 2 then (3, some "lost") else (n + 1, none)

abbrev wrapper : Messaging ℕ
wrapper = record { inner = 0; publisher = new_task_event_publisher true none; made = 0 }

abbrev stamps : Stamps
stamps n = ("event", n)

-- Three reports; the error of the last is returned.
abbrev program : Program
program =
    edit (λ t. record t { task_name = "renamed" })
      (report (progress 50 "half")
        λ e1. report heartbeat λ e2. report (progress 80 "most") λ e3. finish e3)

abbrev fresh_task : BackgroundTask
fresh_task = sample_task "x" TaskPriority.normal

wrapped_execute_transparent_example :
    let (inner, t0, reply) = execute (alone counting) program 0 fresh_task in
    let (s', t', reply') =
      wrapped_execute counting accept_all stamps 100000 program wrapper fresh_task in
    (s'.inner ≡ inner) × (reply' ≡ reply) × (t' ≡ concluded_by 100000 t0 reply)
wrapped_execute_transparent_example =
    wrapped_execute_transparent counting accept_all stamps 100000 program wrapper fresh_task refl

wrapped_execute_announces_example :
    taken_on is_created
      (wrapped_execute counting accept_all stamps 100000 program wrapper fresh_task).0.publisher
    ≡ taken_on is_created wrapper.publisher
      + count_notices is_created (news counting program 0 fresh_task)
wrapped_execute_announces_example =
    wrapped_execute_announces counting accept_all stamps 100000 is_created program wrapper
      fresh_task refl refl

news_run :
    news counting program 0 fresh_task
    ≡ (Events.progress, fresh_task.id) ∷ (Events.failed, fresh_task.id) ∷ []
unfolding news
news_run = refl
