-- ===== src/Postgres/AsQueue.antt =====
-- PostgresTaskQueue as a TaskQueue (task_queue.go, interfaces.go). Enqueue leaves the task with the
-- values that it filled in. A call reads its clock once.
use Prim.Native.String.{◌++◌ as string_append}
use background_tasks.Base.{◌≡◌, ◌≢◌, Option, none, some, String, Time, arith}
use background_tasks.Task.{BackgroundTask}
use background_tasks.Queue.{Reply, returned, raised, panicked, TaskQueue}
use background_tasks.Postgres.{
  Answer, ok, failed, TaskRepository, PostgresTaskQueue, QueueFailure, nil_task, enqueue_failed,
  dequeue_failed, get_failed, update_failed, bury_failed, Ending, value, error, panic, prepared,
  enqueue, dequeue, peek, requeue, move_to_dead_letter, get_pending_count, get_running_count,
  get_queue_depth,
}

-- The text of the error.
abbrev pub text_of : QueueFailure → String
text_of nil_task = "task cannot be nil"
text_of (enqueue_failed e) = string_append "failed to enqueue task: " e
text_of (dequeue_failed e) = string_append "failed to dequeue task: " e
text_of (get_failed e) = string_append "failed to get task: " e
text_of (update_failed e) = string_append "failed to update task: " e
text_of (bury_failed e) = string_append "failed to move task to dead letter: " e

abbrev pub reply_of_ending : {A : Type 0} → Ending A → Reply A
reply_of_ending (value a) = returned a
reply_of_ending (error e) = raised (text_of e)
reply_of_ending panic = panicked

abbrev pub reply_of_answer : {A : Type 0} → Answer A → Reply A
reply_of_answer (ok a) = returned a
reply_of_answer (failed e) = raised e

module _ {R : Type 0} (repo : TaskRepository R) where
  unfoldable pub enqueue_value :
      PostgresTaskQueue R
      → Option BackgroundTask
      → Time
      → PostgresTaskQueue R × Option BackgroundTask × Reply Unit
  enqueue_value q none now = (q, none, raised (text_of nil_task))
  enqueue_value q (some t) now =
      let (q', r) = enqueue repo q (some t) now in (q', some (prepared t now), reply_of_ending r)

  pub enqueue_value-nil :
      (q : PostgresTaskQueue R) (now : Time) (t : Option BackgroundTask)
      → (enqueue_value q t now).2 ≡ returned tt
      → (enqueue_value q t now).1 ≢ none
  unfolding enqueue_value
  enqueue_value-nil q now none e = ground arith
  enqueue_value-nil q now (some t) e = ground arith

  unfoldable pub as_task_queue : TaskQueue (PostgresTaskQueue R)
  as_task_queue = record {
    enqueue = enqueue_value;
    dequeue =
        λ q worker req now. let (q', r) = dequeue repo q worker req in (q', reply_of_ending r);
    peek = λ q n. reply_of_answer (peek repo q n);
    requeue =
        λ q id delay now. let (q', r) = requeue repo q id delay now in (q', reply_of_ending r);
    move_to_dead_letter = λ q id reason now.
        let (q', r) = move_to_dead_letter repo q id reason in (q', reply_of_ending r);
    get_pending_count = λ q. reply_of_answer (get_pending_count repo q);
    get_running_count = λ q. reply_of_answer (get_running_count repo q);
    get_queue_depth =
        λ q now. let (q', r) = get_queue_depth repo q now now in (q', reply_of_answer r);
    enqueue_nil = enqueue_value-nil;
  }

  -- What MessagingTaskQueue asks the repository of its delegate.
  abbrev pub find : PostgresTaskQueue R → String → Option BackgroundTask
  find q id = elim (repo.get_by_id q.store id) [ ok found ↦ found | failed e ↦ none ]
