-- ===== src/Memory/Contract.antt =====
-- What Enqueue, Requeue and MoveToDeadLetter of InMemoryTaskQueue do to the map, the slice and the
-- tasks (task_queue.go).
use mathlib.Core.List.Perm
use mathlib.Core.List.{append-nil}
use background_tasks.Base.{
  if◌then◌else◌, ◌==◌, lookup-insert, ℕ, ◌≡◌, ◌≢◌, refl, pos, ◌+ℤ◌, inl, inr, true, false, none,
  some, List, [], ◌∷◌, ◌++◌, String, Time, Duration, arith, Perm, perm_middle, add_time, str_eq,
  eq_iff, subst, length, ◌+◌,
}
use background_tasks.Task.{BackgroundTask, ResourceRequirements, Models, TaskStatus, is_pending}
use background_tasks.Memory.{
  Ref, InMemoryTaskQueue, EnqueueTimes, task_not_found, enqueue_ref, assign_id, requeue, dequeue,
  move_to_dead_letter, get_task, is_eligible,
}
use background_tasks.Memory.Order.{IsSorted, sort_queue-IsSorted, sort_queue-perm}
use background_tasks.Memory.Claim.{dequeue_lem}

pub append_perm : (xs : List Ref) (a : Ref) → Perm (xs ++ a ∷ []) (a ∷ xs)
append_perm xs a = subst (λ ys. Perm (xs ++ a ∷ []) (a ∷ ys)) (append-nil xs) (perm_middle xs [])

-- Of a task's fields Enqueue sets the id, the status and two times.
abbrev EnqueuedAs : BackgroundTask → BackgroundTask → String → EnqueueTimes → Type 0
EnqueuedAs t old id ts = t ≡ record old {
  id = id;
  status = TaskStatus.pending;
  created_at = ts.created;
  updated_at = ts.updated;
}

module _ (m : Models) where
  -- After Enqueue the map gives the task under its id, the other ids as before; the slice has one
  -- more entry and is in order; the task is pending and keeps its other fields, and no other task
  -- changes.
  pub enqueue_lem :
      (q : InMemoryTaskQueue) (a : Ref) (ts : EnqueueTimes)
      → let r = enqueue_ref m q a ts in
        let id = (assign_id (q.heap a).id q.id_counter ts.stamp).0 in
        (get_task r id ≡ some a)
        × ((j : String) → get_task r j ≡ (if str_eq id j then some a else get_task q j))
        × Perm r.queue (a ∷ q.queue)
        × IsSorted m r.heap r.queue
        × EnqueuedAs (r.heap a) (q.heap a) id ts
        × ((b : Ref) → r.heap b ≡ (if a == b then r.heap a else q.heap b))
  enqueue_lem q a ts = (
    unfold enqueue_ref get_task in ground (arith, lookup-insert id id a q.tasks, eq_iff id id),
    λ j. unfold enqueue_ref get_task in ground (arith, lookup-insert id j a q.tasks),
    unfold enqueue_ref in Perm.trans (sort_queue-perm m _ _) (append_perm q.queue a),
    unfold enqueue_ref in sort_queue-IsSorted m _ _,
    unfold enqueue_ref in ground arith,
    λ b. unfold enqueue_ref in ground arith,
  )
    where
      id : String
      id = (assign_id (q.heap a).id q.id_counter ts.stamp).0

  -- Requeue of an unknown id reports it and changes nothing.
  pub requeue_missing :
      (q : InMemoryTaskQueue) (id : String) (delay : Duration) (now updated : Time)
      → get_task q id ≡ none
      → requeue m q id delay now updated ≡ (q, some (task_not_found id))
  unfolding get_task
  requeue_missing q id delay now updated e = unfold requeue in rw (e, requeue)

  -- Requeue of a known id gives the task back as pending: no worker, no start, one more retry, due
  -- after the delay, the heartbeat as it was. The slice is in order and has one entry more for it,
  -- whether or not it had one.
  pub requeue_found :
      (q : InMemoryTaskQueue) (id : String) (delay : Duration) (now updated : Time) (a : Ref)
      → get_task q id ≡ some a
      → let (r, err) = requeue m q id delay now updated in
        (err ≡ none)
        × Perm r.queue (a ∷ q.queue)
        × IsSorted m r.heap r.queue
        × (r.heap a ≡ record (q.heap a) {
          status = TaskStatus.pending;
          worker_id = none;
          started_at = none;
          retry_count = (q.heap a).retry_count +ℤ pos 1;
          scheduled_at = add_time now delay;
          updated_at = updated;
        })
        × ((b : Ref) → r.heap b ≡ (if a == b then r.heap a else q.heap b))
        × (r.tasks ≡ q.tasks)
  unfolding get_task
  requeue_found q id delay now updated a e =
      unfold requeue in
      rw (e, requeue)
        (
          refl,
          Perm.trans (sort_queue-perm m _ _) (append_perm q.queue a),
          sort_queue-IsSorted m _ _,
          ground arith,
          (λ b. ground arith),
          refl,
        )

not_pending_not_served :
    (q : InMemoryTaskQueue) (a : Ref) (worker : String) (req : ResourceRequirements)
    (clock : ℕ → Time) (now : Time) {s : InMemoryTaskQueue} {b : Ref}
    → is_pending (q.heap a).status ≡ false
    → dequeue q worker req clock now ≡ (s, some b)
    → a ≢ b
not_pending_not_served q a worker req clock now {s} {b} n h e =
    elim (dequeue_lem q worker req clock now) [
      | inl (k, _) ↦ cc
      | inr (c, rest, k, first) ↦
          let same : c ≡ a = cc in
          refute (0 + length first.before) (
            subst (λ x. is_eligible (q.heap x) req (clock (0 + length first.before)) ≡ true) same
              first.passes)
    ]
  where
    refute : (i : ℕ) → is_eligible (q.heap a) req (clock i) ≡ true → ⊥
    refute i p = unfold is_eligible in ground arith

-- A dead letter is no longer served, although its entry stays in the slice.
pub dead_letter_not_served :
    (q : InMemoryTaskQueue) (id reason : String) (at : Time) (a : Ref) (worker : String)
    (req : ResourceRequirements) (clock : ℕ → Time) (now : Time) {s : InMemoryTaskQueue} {b : Ref}
    → get_task q id ≡ some a
    → dequeue (move_to_dead_letter q id reason at).0 worker req clock now ≡ (s, some b)
    → a ≢ b
unfolding get_task
dead_letter_not_served q id reason at a worker req clock now e =
    not_pending_not_served (move_to_dead_letter q id reason at).0 a worker req clock now
      (unfold move_to_dead_letter in rw (e, move_to_dead_letter) (ground arith))
