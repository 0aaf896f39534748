-- ===== src/Runner/Queueing.antt =====
-- The second section of the challenge runner (section2QueueExtras in challenges/runner/main.go),
-- which drives an InMemoryTaskQueue and prints a line for each check. models.NewBackgroundTask is a
-- parameter. The clock is read once for each round of a Dequeue and once for each call.
pub mod Passes
use Prim.Native.String.{◌++◌ as string_append}
use background_tasks.Base.{
  ℕ, zero, suc, ◌≡◌, pos, Bool, true, false, ◌&&◌, Option, none, some, List, [], ◌∷◌, ◌++◌, String,
  Time, length, ◌==◌, is_some, if◌then◌else◌, decimal,
}
use background_tasks.Task.{BackgroundTask, TaskPriority, ResourceRequirements, Models, priority_eq}
use background_tasks.Memory.{
  Ref, Heap, InMemoryTaskQueue, EnqueueTimes, DepthMap, update, new_in_memory_task_queue,
  enqueue_ref, dequeue, peek, requeue, move_to_dead_letter, get_pending_count, get_queue_depth,
  get_task,
}
use background_tasks.Memory.Counts.{depth_at}

-- A line of the report, with the check that it is about.
pub data Line : Type 0 where
  passed failed : String → Line

abbrev pub line : String → Bool → Line
line label true = passed label
line label false = failed label

pub record SectionClock : Type 0 where
  pub enqueued : ℕ → EnqueueTimes
  pub first_rounds : ℕ → Time
  pub first_claim : Time
  pub requeued : Time
  pub updated : Time
  pub second_rounds : ℕ → Time
  pub second_claim : Time
  pub buried : Time

abbrev pub any_size : ResourceRequirements
any_size = record {
  cpu_cores = pos 0;
  memory_mb = pos 0;
  disk_mb = pos 0;
  gpu_count = pos 0;
  priority = TaskPriority.unset;
}

abbrev pub priorities : List TaskPriority
priorities = TaskPriority.critical ∷ TaskPriority.normal ∷ TaskPriority.low ∷ []

abbrev pub size_of : Option (List Ref) → ℕ
size_of none = 0
size_of (some refs) = length refs

module _ (m : Models) (new_background_task : String → String → BackgroundTask) where
  -- The task of the fixture's input `i`.
  abbrev pub made : ℕ → TaskPriority → String → BackgroundTask
  made i priority name = record (new_background_task "locale_demo" name) {
    id = string_append "section2-" (decimal i);
    priority = priority;
  }

  -- The loop ends with the priorities or with the inputs.
  unfoldable pub enqueue_inputs :
      InMemoryTaskQueue
      → (ℕ → EnqueueTimes)
      → ℕ
      → List TaskPriority
      → List String
      → InMemoryTaskQueue
  enqueue_inputs q times i [] names = q
  enqueue_inputs q times i (p ∷ ps) [] = q
  enqueue_inputs q times i (p ∷ ps) (name ∷ names) =
      enqueue_inputs
        (enqueue_ref m (record q { heap = update q.heap i (made i p name) }) i (times i)) times
        (suc i) ps names

  abbrev pub is_histogram : DepthMap → Bool
  is_histogram depth =
      depth_at TaskPriority.critical depth == 1
      && depth_at TaskPriority.normal depth == 1
      && depth_at TaskPriority.low depth == 1

  -- What is printed of the queue before anything is dequeued.
  unfoldable pub report_counts : InMemoryTaskQueue → List Line
  report_counts q =
      line "GetPendingCount" (get_pending_count q == 3)
      ∷ line "GetQueueDepth" (is_histogram (get_queue_depth q))
      ∷ line "Peek" (size_of (peek q (pos 10)) == 3)
      ∷ line "no-claim invariant" (get_pending_count q == 3)
      ∷ []

  -- From the second Dequeue on, and from the first.
  unfoldable pub after_second : InMemoryTaskQueue × Option Ref → SectionClock → List Line
  after_second (q, none) c = failed "Dequeue2" ∷ []
  after_second (q, some a) c =
      let (q', err) = move_to_dead_letter q (q.heap a).id "round-261-dead-letter-test" c.buried in
      line "MoveToDeadLetter" (elim err [ none ↦ true | some e ↦ false ])
      ∷ elim (get_task q' (q.heap a).id) [ some got ↦ passed "GetTask" | none ↦ passed "GetTask" ]
      ∷ []

  unfoldable pub report_second : InMemoryTaskQueue → SectionClock → List Line
  report_second q c =
      after_second (dequeue q "section2-worker" any_size c.second_rounds c.second_claim) c

  unfoldable pub after_first : InMemoryTaskQueue × Option Ref → SectionClock → List Line
  after_first (q, none) c = failed "Dequeue" ∷ []
  after_first (q, some a) c =
      let (q', err) = requeue m q (q.heap a).id (pos 0) c.requeued c.updated in
      line "priority-order" (priority_eq (q.heap a).priority TaskPriority.critical)
      ∷ line "Requeue" (elim err [ none ↦ true | some e ↦ false ])
      ∷ report_second q' c

  unfoldable pub report_first : InMemoryTaskQueue → SectionClock → List Line
  report_first q c =
      after_first (dequeue q "section2-worker" any_size c.first_rounds c.first_claim) c

  abbrev pub queue_of : Heap → List String → SectionClock → InMemoryTaskQueue
  queue_of h names c = enqueue_inputs (new_in_memory_task_queue h) c.enqueued 0 priorities names

  unfoldable pub section2 : Heap → List String → SectionClock → List Line
  section2 h names c = report_counts (queue_of h names c) ++ report_first (queue_of h names c) c
