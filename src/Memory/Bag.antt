-- ===== src/Memory/Bag.antt =====
-- The contract of an in-memory queue without its slice (task_queue.go): the entries are a bag, and
-- Dequeue may serve any of them that no other goes before.
pub mod Refines
use mathlib.Mathlib.Data.Multiset.Defs.{Multiset, of_list, Mem}
use mathlib.Mathlib.Data.Multiset.ZeroCons.{cons}
use background_tasks.Base.{
  ℕ, ◌≡◌, ℤ, pos, ◌+ℤ◌, true, false, Option, none, some, List, [], ◌∷◌, String, Time, Duration,
  add_time, lookup, insert,
}
use background_tasks.Task.{BackgroundTask, TaskStatus, ResourceRequirements, Models}
use background_tasks.Memory.{
  Ref, Heap, TaskMap, update, InMemoryTaskQueue, QueueError, task_not_found, EnqueueTimes,
  assign_id, enqueued_task, swap_refs, enqueue_ref, requeue, dequeue, claim, is_eligible,
  move_to_dead_letter, update_task,
}

pub record Store : Type 0 where
  pub heap : Heap
  pub tasks : TaskMap
  pub bag : Multiset Ref
  pub id_counter : ℕ

-- The calls that change a queue, and the writes of those who hold a task.
pub data Call : Type 0 where
  enqueues : Ref → EnqueueTimes → Call
  dequeues : String → ResourceRequirements → (ℕ → Time) → Time → Call
  requeues : String → Duration → (now updated : Time) → Call
  buries : (task_id reason : String) → Time → Call
  updates : Ref → Time → Call
  -- Neither the priority nor the creation time is written.
  writes :
      Ref
      → (f : BackgroundTask → BackgroundTask) → ((t : BackgroundTask) → (f t).priority ≡ t.priority)
      → ((t : BackgroundTask) → (f t).created_at ≡ t.created_at)
      → Call

pub data Out : Type 0 where
  done : Out
  refused : QueueError → Out
  served : Option Ref → Out

abbrev pub out_of : Option QueueError → Out
out_of none = done
out_of (some e) = refused e

-- A task is written anew and gets one more entry.
abbrev pub put : Store → Ref → BackgroundTask → Store
put s a t = record s { heap = update s.heap a t; bag = cons a s.bag }

abbrev pub overwrite : Store → Ref → BackgroundTask → Store
overwrite s a t = record s { heap = update s.heap a t }

abbrev pub given_back : BackgroundTask → (scheduled updated : Time) → BackgroundTask
given_back t scheduled updated = record t {
  status = TaskStatus.pending;
  worker_id = none;
  started_at = none;
  retry_count = t.retry_count +ℤ pos 1;
  scheduled_at = scheduled;
  updated_at = updated;
}

-- The task passes the tests at every instant that the call may read.
abbrev pub IsAlwaysEligible : Store → ResourceRequirements → (ℕ → Time) → Ref → Type 0
IsAlwaysEligible s req clock b = (i : ℕ) → is_eligible (s.heap b) req (clock i) ≡ true

module _ (m : Models) where
  -- What a call may do to the store and answer.
  pub data Allows (s : Store) : Call → Out → Store → Type 0 where
    adds :
        (a : Ref) (ts : EnqueueTimes) (id : String) (counter : ℕ)
        → assign_id (s.heap a).id s.id_counter ts.stamp ≡ (id, counter)
        → Allows s (enqueues a ts) done (record (put s a (enqueued_task (s.heap a) id ts)) {
          tasks = insert id a s.tasks;
          id_counter = counter;
        })
    -- The task served passes the tests and no task that always does goes before it.
    serves :
        (worker : String) (req : ResourceRequirements) (clock : ℕ → Time) (now : Time) (a : Ref)
        (rest : Multiset Ref) (i : ℕ)
        → s.bag ≡ cons a rest
        → is_eligible (s.heap a) req (clock i) ≡ true
        → ((b : Ref)
            → Mem s.bag b
            → IsAlwaysEligible s req clock b
            → swap_refs m s.heap a b ≡ false)
        → Allows s
            (dequeues worker req clock now)
            (served (some a))
            (record (overwrite s a (claim (s.heap a) worker now)) { bag = rest })
    idles :
        (worker : String) (req : ResourceRequirements) (clock : ℕ → Time) (now : Time)
        → ((b : Ref) → Mem s.bag b → ¬ IsAlwaysEligible s req clock b)
        → Allows s (dequeues worker req clock now) (served none) s
    gives_back :
        (task_id : String) (delay : Duration) (now updated : Time) (a : Ref)
        → lookup task_id s.tasks ≡ some a
        → Allows s
            (requeues task_id delay now updated)
            done
            (put s a (given_back (s.heap a) (add_time now delay) updated))
    cannot_give_back :
        (task_id : String) (delay : Duration) (now updated : Time)
        → lookup task_id s.tasks ≡ none
        → Allows s (requeues task_id delay now updated) (refused (task_not_found task_id)) s
    -- The entries of a dead letter stay.
    dies :
        (task_id reason : String) (now : Time) (a : Ref)
        → lookup task_id s.tasks ≡ some a
        → Allows s (buries task_id reason now) done (
            overwrite s a (record (s.heap a) {
              status = TaskStatus.dead_letter;
              last_error = some reason;
              updated_at = now;
            }))
    cannot_die :
        (task_id reason : String) (now : Time)
        → lookup task_id s.tasks ≡ none
        → Allows s (buries task_id reason now) (refused (task_not_found task_id)) s
    notes :
        (a : Ref) (now : Time)
        → Allows s
            (updates a now)
            done
            (record (overwrite s a (record (s.heap a) { updated_at = now })) {
              tasks = insert (s.heap a).id a s.tasks;
            })
    changes :
        (a : Ref) (f : BackgroundTask → BackgroundTask)
        (p : (t : BackgroundTask) → (f t).priority ≡ t.priority)
        (c : (t : BackgroundTask) → (f t).created_at ≡ t.created_at)
        → Allows s (writes a f p c) done (overwrite s a (f (s.heap a)))

  -- A list of calls with their answers that the contract allows.
  pub data Trace : Store → List Call → List Out → Store → Type 0 where
    stay : {s : Store} → Trace s [] [] s
    step :
        {c : Call} {o : Out} {s t u : Store} {cs : List Call} {os : List Out}
        → Allows s c o t
        → Trace t cs os u
        → Trace s (c ∷ cs) (o ∷ os) u

  unfoldable pub perform : InMemoryTaskQueue → Call → InMemoryTaskQueue × Out
  perform q (enqueues a ts) = (enqueue_ref m q a ts, done)
  perform q (dequeues worker req clock now) =
      let (r, found) = dequeue q worker req clock now in (r, served found)
  perform q (requeues task_id delay now updated) =
      let (r, err) = requeue m q task_id delay now updated in (r, out_of err)
  perform q (buries task_id reason now) =
      let (r, err) = move_to_dead_letter q task_id reason now in (r, out_of err)
  perform q (updates a now) = (update_task q a now, done)
  perform q (writes a f p c) = (record q { heap = update q.heap a (f (q.heap a)) }, done)

  unfoldable pub perform_all : InMemoryTaskQueue → List Call → InMemoryTaskQueue × List Out
  perform_all q [] = (q, [])
  perform_all q (c ∷ cs) =
      let (r, o) = perform q c in let (r', os) = perform_all r cs in (r', o ∷ os)

-- The queue without the order of its slice.
abbrev pub view : InMemoryTaskQueue → Store
view q = record { heap = q.heap; tasks = q.tasks; bag = of_list q.queue; id_counter = q.id_counter }
