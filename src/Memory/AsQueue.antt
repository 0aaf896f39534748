-- ===== src/Memory/AsQueue.antt =====
-- InMemoryTaskQueue as a TaskQueue (task_queue.go, interfaces.go), for callers that keep no pointer
-- to a task: Enqueue makes a new object, and the tasks that a call returns are read at once. A call
-- reads its clock once.
use background_tasks.Base.{
  ℕ, suc, ◌≡◌, ◌≢◌, Option, none, some, List, map, ℤ, pos, String, Time, arith,
}
use Prim.Native.String.{◌++◌ as string_append}
use background_tasks.Task.{BackgroundTask, ResourceRequirements, Models}
use background_tasks.Queue.{Reply, returned, raised, panicked, TaskQueue}
use background_tasks.Memory.{
  Ref, InMemoryTaskQueue, QueueError, task_not_found, EnqueueTimes, update, enqueue_ref, dequeue,
  peek, requeue, move_to_dead_letter, get_pending_count, get_running_count, get_queue_depth,
}

-- The queue and the first address at which no object has been made.
pub record Objects : Type 0 where
  pub queue : InMemoryTaskQueue
  pub next : Ref

abbrev pub new_object : Objects → BackgroundTask → Objects
new_object d t = record {
  queue = record d.queue { heap = update d.queue.heap d.next t };
  next = suc d.next;
}

-- The text of the error.
abbrev pub text_of : QueueError → String
text_of (task_not_found id) = string_append "task not found: " id

abbrev pub answered : Objects → InMemoryTaskQueue × Option QueueError → Objects × Reply Unit
answered d (q, none) = (record d { queue = q }, returned tt)
answered d (q, some e) = (record d { queue = q }, raised (text_of e))

module _ (m : Models) (unix_nano : Time → ℕ) where
  abbrev pub times : Time → EnqueueTimes
  times now = record { stamp = unix_nano now; created = now; updated = now }

  -- A nil task is dereferenced.
  unfoldable pub enqueue_value :
      Objects → Option BackgroundTask → Time → Objects × Option BackgroundTask × Reply Unit
  enqueue_value d none now = (d, none, panicked)
  enqueue_value d (some t) now =
      let made = new_object d t in
      let q = enqueue_ref m made.queue d.next (times now) in
      (record made { queue = q }, some (q.heap d.next), returned tt)

  unfoldable pub dequeue_value :
      Objects → String → ResourceRequirements → Time → Objects × Reply (Option BackgroundTask)
  dequeue_value d worker req now =
      let (q, found) = dequeue d.queue worker req (λ i. now) now in
      (record d { queue = q }, returned (elim found [ none ↦ none | some a ↦ some (q.heap a) ]))

  unfoldable pub peek_value : Objects → ℤ → Reply (List BackgroundTask)
  peek_value d n = elim (peek d.queue n) [
    | none ↦ panicked
    | some refs ↦ returned (map d.queue.heap refs)
  ]

  pub enqueue_value-nil :
      (d : Objects) (now : Time) (t : Option BackgroundTask)
      → (enqueue_value d t now).2 ≡ returned tt
      → (enqueue_value d t now).1 ≢ none
  unfolding enqueue_value
  enqueue_value-nil d now none e = ground arith
  enqueue_value-nil d now (some t) e = ground arith

  unfoldable pub as_task_queue : TaskQueue Objects
  as_task_queue = record {
    enqueue = enqueue_value;
    dequeue = dequeue_value;
    peek = peek_value;
    requeue = λ d id delay now. answered d (requeue m d.queue id delay now now);
    move_to_dead_letter = λ d id reason now. answered d (move_to_dead_letter d.queue id reason now);
    get_pending_count = λ d. returned (pos (get_pending_count d.queue));
    get_running_count = λ d. returned (pos (get_running_count d.queue));
    get_queue_depth = λ d now. (d, returned (get_queue_depth d.queue));
    enqueue_nil = enqueue_value-nil;
  }
