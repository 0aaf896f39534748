-- ===== src/Memory/Steps.antt =====
-- Histories of an InMemoryTaskQueue: the calls that change it (task_queue.go), and the writes of those
-- who hold a pointer that Dequeue returned.
use mathlib.Core.List.{Mem}
use background_tasks.Base.{
  lookup, some, ◌⊎◌, ◌≡◌, refl, subst, sym, inl, inr, true, List, [], ◌∷◌, ◌++◌, String, Time,
  Duration, ℕ, All, Option-cases,
}
use background_tasks.Task.{BackgroundTask, ResourceRequirements, Models, is_pending}
use background_tasks.Memory.{
  Ref, Heap, update, InMemoryTaskQueue, EnqueueTimes, enqueue_ref, requeue, dequeue,
  move_to_dead_letter, update_task, new_in_memory_task_queue,
}
use background_tasks.Memory.Order.{IsSorted, sort_queue-IsSorted, update-IsSorted}
use background_tasks.Memory.Claim.{dequeue_lem}

module _ (m : Models) where
  -- `writes`: a holder changes a task, but neither its priority nor its creation time, and does not
  -- make it pending. `updates`: UpdateTask with a task that, if it is pending, is known under its id or
  -- queued.
  pub data Step (q : InMemoryTaskQueue) : InMemoryTaskQueue → Type 0 where
    enqueues : (a : Ref) (ts : EnqueueTimes) → Step q (enqueue_ref m q a ts)
    dequeues :
        (worker : String) (req : ResourceRequirements) (clock : ℕ → Time) (now : Time)
        → Step q (dequeue q worker req clock now).0
    requeues :
        (task_id : String) (delay : Duration) (now updated : Time)
        → Step q (requeue m q task_id delay now updated).0
    dead_letters :
        (task_id reason : String) (now : Time) → Step q (move_to_dead_letter q task_id reason now).0
    updates :
        (a : Ref) (now : Time)
        → (is_pending (q.heap a).status ≡ true
            → (lookup (q.heap a).id q.tasks ≡ some a) ⊎ Mem a q.queue)
        → Step q (update_task q a now)
    writes :
        (a : Ref) (t : BackgroundTask)
        → t.priority ≡ (q.heap a).priority
        → t.created_at ≡ (q.heap a).created_at
        → (is_pending t.status ≡ true → is_pending (q.heap a).status ≡ true)
        → Step q (record q { heap = update q.heap a t })

  pub data Reach : InMemoryTaskQueue → Type 0 where
    start : (h : Heap) → Reach (new_in_memory_task_queue h)
    next : {q r : InMemoryTaskQueue} → Reach q → Step q r → Reach r

  abbrev pub InOrder : InMemoryTaskQueue → Type 0
  InOrder q = IsSorted m q.heap q.queue

  drop_middle :
      (h : Heap) (a : Ref) (before after : List Ref)
      → IsSorted m h (before ++ a ∷ after)
      → IsSorted m h (before ++ after)
  drop_middle h a [] after s = s.1
  drop_middle h a (b ∷ before) after s = (drop_All _ before s.0, drop_middle h a before after s.1)
    where
      drop_All : (P : Ref → Type 0) (xs : List Ref) → All P (xs ++ a ∷ after) → All P (xs ++ after)
      drop_All P [] p = p.1
      drop_All P (x ∷ xs) p = (p.0, drop_All P xs p.1)

  pub requeue-InOrder :
      (q : InMemoryTaskQueue) (task_id : String) (delay : Duration) (now updated : Time)
      → InOrder q
      → InOrder (requeue m q task_id delay now updated).0
  unfolding requeue
  requeue-InOrder q task_id delay now updated s = elim (Option-cases (lookup task_id q.tasks)) [
    | inl e ↦ rw (e, requeue) s
    | inr (a, e) ↦ rw (e, requeue) (sort_queue-IsSorted m _ _)
  ]

  pub dead_letter-InOrder :
      (q : InMemoryTaskQueue) (task_id reason : String) (now : Time)
      → InOrder q
      → InOrder (move_to_dead_letter q task_id reason now).0
  unfolding move_to_dead_letter
  dead_letter-InOrder q task_id reason now s = elim (Option-cases (lookup task_id q.tasks)) [
    | inl e ↦ rw (e, move_to_dead_letter) s
    | inr (a, e) ↦ rw (e, move_to_dead_letter) (update-IsSorted m q.heap a _ q.queue refl refl s)
  ]

  pub dequeue-InOrder :
      (q : InMemoryTaskQueue) (worker : String) (req : ResourceRequirements) (clock : ℕ → Time)
      (now : Time)
      → InOrder q
      → InOrder (dequeue q worker req clock now).0
  dequeue-InOrder q worker req clock now s = elim (dequeue_lem q worker req clock now) [
    | inl (e, _) ↦ rw e s
    | inr (a, rest, e, first) ↦ rw e (
        update-IsSorted m q.heap a _ rest refl refl (
          subst (IsSorted m q.heap) (sym first.others) (
            drop_middle q.heap a first.before first.after
              (subst (IsSorted m q.heap) first.split s))))
  ]

  Step-InOrder : {q r : InMemoryTaskQueue} → Step q r → InOrder q → InOrder r
  unfolding enqueue_ref update_task
  Step-InOrder (enqueues a ts) s = sort_queue-IsSorted m _ _
  Step-InOrder {q} (dequeues worker req clock now) s = dequeue-InOrder q worker req clock now s
  Step-InOrder {q} (requeues task_id delay now updated) s =
      requeue-InOrder q task_id delay now updated s
  Step-InOrder {q} (dead_letters task_id reason now) s = dead_letter-InOrder q task_id reason now s
  Step-InOrder {q} (updates a now _) s = update-IsSorted m q.heap a _ q.queue refl refl s
  Step-InOrder {q} (writes a t p c _) s = update-IsSorted m q.heap a t q.queue p c s

  -- The slice is in order of priority and creation after any history in which those who hold a task
  -- leave its priority and creation time alone and make no task pending, and UpdateTask gets no pending
  -- task that the queue neither knows under its id nor has in the slice.
  pub Reach-InOrder : {q : InMemoryTaskQueue} → Reach q → InOrder q
  Reach-InOrder (start h) = tt
  Reach-InOrder (next r st) = Step-InOrder st (Reach-InOrder r)
