-- ===== src/Messaging.antt =====
-- MessagingTaskQueue (messaging_adapter.go): a queue that hands each call to its delegate, and
-- announces the calls that change a task to a TaskEventPublisher. The delegate is any TaskQueue.
-- `find` is the repository's GetByID where the delegate is a PostgresTaskQueue, as it is before the
-- call, and gives `none` for every other delegate, for an error and for a nil task.
pub mod Refines
pub mod Announces
pub mod Notices
pub mod Executor
use background_tasks.Base.{
  ℕ, ◌≡◌, ℤ, Option, none, some, List, [], ◌∷◌, String, Time, Duration, Bool,
}
use background_tasks.Task.{BackgroundTask, TaskPriority, ResourceRequirements}
use background_tasks.Queue.{
  Reply, returned, raised, panicked, then_reply, TaskQueue, Op, enqueues, dequeues, peeks, requeues,
  buries, counts_pending, counts_running, counts_depth, Result, nothing, task, tasks, count, depth,
}
use background_tasks.Events.{BackgroundTaskEvent}
use background_tasks.Events.Publisher.{
  TaskEventPublisher, TaskEventPublisherConfig, Outcome, new_task_event_publisher, start, stop,
}
use background_tasks.Events.Publisher.{default_task_event_publisher_config}
use background_tasks.Events.Messages.{
  publish_task_created, publish_task_started, publish_task_retrying, publish_task_dead_letter,
}

pub record MessagingTaskQueue (D : Type 0) : Type 0 where
  pub delegate : D
  pub publisher : TaskEventPublisher

-- What a call takes from its surroundings: the instant, and the id of the event if there is one.
pub record Stamp : Type 0 where
  pub now : Time
  pub event_id : String

-- A call that has had its effect ends as before, unless publishing panicked; a publishing error is
-- only logged.
abbrev pub after_publish :
    {D A : Type 0} → D → A → TaskEventPublisher × Outcome → MessagingTaskQueue D × Reply A
after_publish d a (p, Outcome.panicked) = (record { delegate = d; publisher = p }, panicked)
after_publish d a (p, Outcome.done err) = (record { delegate = d; publisher = p }, returned a)

-- `config` is the publisher's configuration in MessagingTaskQueueConfig; without either the default
-- one is taken.
abbrev pub new_messaging_task_queue :
    {D : Type 0} → D → Bool → Option (Option TaskEventPublisherConfig) → MessagingTaskQueue D
new_messaging_task_queue d has_publisher none = record {
  delegate = d;
  publisher = new_task_event_publisher has_publisher (some default_task_event_publisher_config);
}
new_messaging_task_queue d has_publisher (some config) = record {
  delegate = d;
  publisher = new_task_event_publisher has_publisher config;
}

abbrev pub start_queue : {D : Type 0} → MessagingTaskQueue D → MessagingTaskQueue D
start_queue q = record q { publisher = start q.publisher }

abbrev pub stop_queue : {D : Type 0} → MessagingTaskQueue D → MessagingTaskQueue D × Outcome
stop_queue q = let (p, out) = stop q.publisher in (record q { publisher = p }, out)

-- SetupMessagingForWorkerPool; the pool it is given plays no part.
unfoldable pub setup_messaging_for_worker_pool :
    {D : Type 0} → D → Bool → Option (Option TaskEventPublisherConfig) → MessagingTaskQueue D
setup_messaging_for_worker_pool d has_publisher config =
    start_queue (new_messaging_task_queue d has_publisher config)

module _ {D : Type 0} (tq : TaskQueue D) (find : D → String → Option BackgroundTask)
    (answer : BackgroundTaskEvent → Option String) where
  unfoldable pub enqueue :
      MessagingTaskQueue D
      → Option BackgroundTask
      → Stamp
      → MessagingTaskQueue D × Option BackgroundTask × Reply Unit
  enqueue q t st =
      let (d, t', r) = tq.enqueue q.delegate t st.now in
      elim r [
        | raised e ↦ (record q { delegate = d }, t', raised e)
        | panicked ↦ (record q { delegate = d }, t', panicked)
        | returned u ↦ elim t' [
          | none ↦ (record q { delegate = d }, none, panicked)
          | some made ↦
              let (q', r') =
                after_publish d tt
                  (publish_task_created answer q.publisher st.event_id st.now made) in
              (q', some made, r')
        ]
      ]

  unfoldable pub dequeue :
      MessagingTaskQueue D
      → String
      → ResourceRequirements
      → Stamp
      → MessagingTaskQueue D × Reply (Option BackgroundTask)
  dequeue q worker req st =
      let (d, r) = tq.dequeue q.delegate worker req st.now in
      elim r [
        | raised e ↦ (record q { delegate = d }, raised e)
        | panicked ↦ (record q { delegate = d }, panicked)
        | returned found ↦ elim found [
          | none ↦ (record q { delegate = d }, returned none)
          | some t ↦
              after_publish d (some t)
                (publish_task_started answer q.publisher st.event_id st.now t)
        ]
      ]

  unfoldable pub requeue :
      MessagingTaskQueue D → String → Duration → Stamp → MessagingTaskQueue D × Reply Unit
  requeue q task_id delay st =
      let (d, r) = tq.requeue q.delegate task_id delay st.now in
      elim r [
        | raised e ↦ (record q { delegate = d }, raised e)
        | panicked ↦ (record q { delegate = d }, panicked)
        | returned u ↦ elim (find q.delegate task_id) [
          | none ↦ (record q { delegate = d }, returned tt)
          | some t ↦
              after_publish d tt
                (publish_task_retrying answer q.publisher st.event_id st.now t st.now delay)
        ]
      ]

  unfoldable pub move_to_dead_letter :
      MessagingTaskQueue D → String → String → Stamp → MessagingTaskQueue D × Reply Unit
  move_to_dead_letter q task_id reason st =
      let (d, r) = tq.move_to_dead_letter q.delegate task_id reason st.now in
      elim r [
        | raised e ↦ (record q { delegate = d }, raised e)
        | panicked ↦ (record q { delegate = d }, panicked)
        | returned u ↦ elim (find q.delegate task_id) [
          | none ↦ (record q { delegate = d }, returned tt)
          | some t ↦
              after_publish d tt
                (publish_task_dead_letter answer q.publisher st.event_id st.now t reason)
        ]
      ]

  -- Peek and the counts go to the delegate alone.
  abbrev pub peek : MessagingTaskQueue D → ℤ → Reply (List BackgroundTask)
  peek q n = tq.peek q.delegate n

  abbrev pub get_pending_count : MessagingTaskQueue D → Reply ℤ
  get_pending_count q = tq.get_pending_count q.delegate

  abbrev pub get_running_count : MessagingTaskQueue D → Reply ℤ
  get_running_count q = tq.get_running_count q.delegate

  abbrev pub get_queue_depth :
      MessagingTaskQueue D → Time → MessagingTaskQueue D × Reply (List (TaskPriority × ℕ))
  get_queue_depth q now =
      let (d, r) = tq.get_queue_depth q.delegate now in (record q { delegate = d }, r)

  abbrev pub call : MessagingTaskQueue D → Op → Stamp → MessagingTaskQueue D × Reply Result
  call q (enqueues t) st = let (q', _, r) = enqueue q t st in (q', then_reply r λ _. nothing)
  call q (dequeues worker req) st = let (q', r) = dequeue q worker req st in (q', then_reply r task)
  call q (peeks n) st = (q, then_reply (peek q n) tasks)
  call q (requeues id delay) st =
      let (q', r) = requeue q id delay st in (q', then_reply r λ _. nothing)
  call q (buries id reason) st =
      let (q', r) = move_to_dead_letter q id reason st in (q', then_reply r λ _. nothing)
  call q counts_pending st = (q, then_reply (get_pending_count q) count)
  call q counts_running st = (q, then_reply (get_running_count q) count)
  call q counts_depth st = let (q', r) = get_queue_depth q st.now in (q', then_reply r depth)

  unfoldable pub run :
      MessagingTaskQueue D → List (Op × Stamp) → MessagingTaskQueue D × List (Reply Result)
  run q [] = (q, [])
  run q ((op, st) ∷ ops) = let (q', r) = call q op st in let (q'', rs) = run q' ops in (q'', r ∷ rs)
