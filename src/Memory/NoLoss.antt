-- ===== src/Memory/NoLoss.antt =====
-- No pending task is lost by an InMemoryTaskQueue (task_queue.go).
use mathlib.Core.List.Perm
use mathlib.Core.List.{Mem, mem-append_left, mem-append_right, mem-cons_self, mem-cons, not-mem-nil}
use mathlib.Core.Logic.{∥∥₁_prop}
use mathlib.Core.Logic.Or
use mathlib.Core.HLevel.{⊥_prop}
use background_tasks.Base.{
  ◌⊎◌, lookup, lookup-insert, ◌≡◌, ◌≢◌, subst, sym, inl, inr, true, some, List, [], ◌∷◌, ◌++◌,
  String, Time, Duration, ℕ, suc, arith, Option-cases, ℕ_discrete, perm_middle,
}
use background_tasks.Task.{BackgroundTask, ResourceRequirements, Models, is_pending}
use background_tasks.Memory.{
  Ref, Heap, update, InMemoryTaskQueue, EnqueueTimes, enqueue_ref, requeue, dequeue, claim,
  move_to_dead_letter, update_task, sort_queue, assign_id, is_eligible,
}
use background_tasks.Memory.Order.{sort_queue-perm}
use background_tasks.Memory.Claim.{dequeue_lem, NoneEligible}
use background_tasks.Memory.Steps.{
  Step, Reach, start, next, enqueues, dequeues, requeues, dead_letters, updates, writes,
}

-- Each pending task that the map knows stands in the slice.
abbrev pub NoneLost : InMemoryTaskQueue → Type 0
NoneLost q =
    (id : String) (a : Ref)
    → lookup id q.tasks ≡ some a
    → is_pending (q.heap a).status ≡ true
    → Mem a q.queue

module _ (m : Models) where
  mem-sort_old :
      (h : Heap) (xs : List Ref) (a b : Ref) → Mem b xs → Mem b (sort_queue m h (xs ++ a ∷ []))
  mem-sort_old h xs a b i =
      (Perm.mem_iff (sort_queue-perm m h (xs ++ a ∷ []))).1 (mem-append_left (a ∷ []) i)

  mem-sort_new : (h : Heap) (xs : List Ref) (a : Ref) → Mem a (sort_queue m h (xs ++ a ∷ []))
  mem-sort_new h xs a =
      (Perm.mem_iff (sort_queue-perm m h (xs ++ a ∷ []))).1 (mem-append_right xs mem-cons_self)

  -- The written task is queued, and the others are as they were.
  queued_anew :
      (h : Heap) (xs : List Ref) (a : Ref) (t : BackgroundTask) (b : Ref)
      → (a ≢ b → is_pending (h b).status ≡ true → Mem b xs)
      → is_pending (update h a t b).status ≡ true
      → Mem b (sort_queue m (update h a t) (xs ++ a ∷ []))
  queued_anew h xs a t b old p = elim (ℕ_discrete a b) [
    | yes e ↦
        subst (λ c. Mem c (sort_queue m (update h a t) (xs ++ a ∷ []))) e
          (mem-sort_new (update h a t) xs a)
    | no d ↦ mem-sort_old (update h a t) xs a b (old d (ground arith))
  ]

  enqueue-NoneLost :
      (q : InMemoryTaskQueue) (a : Ref) (ts : EnqueueTimes)
      → NoneLost q
      → NoneLost (enqueue_ref m q a ts)
  unfolding enqueue_ref
  enqueue-NoneLost q a ts kept id b found p =
      queued_anew q.heap q.queue a _ b (λ d p'. kept id b (not_new d) p') p
    where
      new_id : String
      new_id = (assign_id (q.heap a).id q.id_counter ts.stamp).0

      not_new : a ≢ b → lookup id q.tasks ≡ some b
      not_new d = ground (arith, lookup-insert new_id id a q.tasks, found)

  requeue-NoneLost :
      (q : InMemoryTaskQueue) (task_id : String) (delay : Duration) (now updated : Time)
      → NoneLost q
      → NoneLost (requeue m q task_id delay now updated).0
  requeue-NoneLost q task_id delay now updated kept = elim (Option-cases (lookup task_id q.tasks)) [
    | inl e ↦ unfold requeue in rw (e, requeue) kept
    | inr (a, e) ↦
        unfold requeue in
        rw (e, requeue)
          (λ id b found p. queued_anew q.heap q.queue a _ b (λ _ p'. kept id b found p') p)
  ]

  dead_letter-NoneLost :
      (q : InMemoryTaskQueue) (task_id reason : String) (now : Time)
      → NoneLost q
      → NoneLost (move_to_dead_letter q task_id reason now).0
  dead_letter-NoneLost q task_id reason now kept = elim (Option-cases (lookup task_id q.tasks)) [
    | inl e ↦ unfold move_to_dead_letter in rw (e, move_to_dead_letter) kept
    | inr (a, e) ↦
        unfold move_to_dead_letter in
        rw (e, move_to_dead_letter) (λ id b found p. kept id b found (ground arith))
  ]

  mem_others :
      (a b : Ref) (before after : List Ref)
      → a ≢ b
      → Mem b (before ++ a ∷ after)
      → Mem b (before ++ after)
  mem_others a b before after d i =
      Or.elim ∥∥₁_prop ((mem-cons).0 ((Perm.mem_iff (perm_middle before after)).0 i))
        (λ e. absurd (d (sym e))) (λ j. j)

  dequeue-NoneLost :
      (q : InMemoryTaskQueue) (worker : String) (req : ResourceRequirements) (clock : ℕ → Time)
      (now : Time)
      → NoneLost q
      → NoneLost (dequeue q worker req clock now).0
  dequeue-NoneLost q worker req clock now kept = elim (dequeue_lem q worker req clock now) [
    | inl (e, _) ↦ rw e kept
    | inr (a, rest, e, first) ↦ rw e (λ id b found p. subst (Mem b) (sym first.others) (
        mem_others a b first.before first.after (not_claimed a b (q.heap a) p)
          (subst (Mem b) first.split (kept id b found (was_pending a b (q.heap a) p)))))
  ]
    where
      not_claimed :
          (a b : Ref) (t : BackgroundTask)
          → is_pending (update q.heap a (claim t worker now) b).status ≡ true
          → a ≢ b
      not_claimed a b t p d = ground arith

      was_pending :
          (a b : Ref) (t : BackgroundTask)
          → is_pending (update q.heap a (claim t worker now) b).status ≡ true
          → is_pending (q.heap b).status ≡ true
      was_pending a b t p = ground arith

  update-NoneLost :
      (q : InMemoryTaskQueue) (a : Ref) (now : Time)
      → (is_pending (q.heap a).status ≡ true
          → (lookup (q.heap a).id q.tasks ≡ some a) ⊎ Mem a q.queue)
      → NoneLost q
      → NoneLost (update_task q a now)
  unfolding update_task
  update-NoneLost q a now h kept id b found p = elim (ℕ_discrete a b) [
    | yes e ↦
        let pending : is_pending (q.heap a).status ≡ true = ground arith in
        subst (λ c. Mem c q.queue) e
          (elim (h pending) [
            | inl known ↦ kept (q.heap a).id a known pending
            | inr queued ↦ queued
          ])
    | no d ↦
        kept id b (ground (arith, lookup-insert (q.heap a).id id a q.tasks, found)) (ground arith)
  ]

  write-NoneLost :
      (q : InMemoryTaskQueue) (a : Ref) (t : BackgroundTask)
      → (is_pending t.status ≡ true → is_pending (q.heap a).status ≡ true)
      → NoneLost q
      → NoneLost (record q { heap = update q.heap a t })
  write-NoneLost q a t h kept id b found p = kept id b found (ground arith)

  Step-NoneLost : {q r : InMemoryTaskQueue} → Step m q r → NoneLost q → NoneLost r
  Step-NoneLost {q} (enqueues a ts) kept = enqueue-NoneLost q a ts kept
  Step-NoneLost {q} (dequeues worker req clock now) kept =
      dequeue-NoneLost q worker req clock now kept
  Step-NoneLost {q} (requeues task_id delay now updated) kept =
      requeue-NoneLost q task_id delay now updated kept
  Step-NoneLost {q} (dead_letters task_id reason now) kept =
      dead_letter-NoneLost q task_id reason now kept
  Step-NoneLost {q} (updates a now h) kept = update-NoneLost q a now h kept
  Step-NoneLost {q} (writes a t _ _ h) kept = write-NoneLost q a t h kept

  pub Reach-NoneLost : {q : InMemoryTaskQueue} → Reach m q → NoneLost q
  unfolding lookup
  Reach-NoneLost (start h) = λ id a found p. cc
  Reach-NoneLost (next r st) = Step-NoneLost st (Reach-NoneLost r)

  -- Each pending task that the map knows stands in the slice, where Dequeue looks for it, after any
  -- history in which those who hold a task make none pending and leave its priority and creation time
  -- alone, and UpdateTask gets a pending task only if the queue knows it under its id or has it in the
  -- slice.
  pub pending_is_queued :
      {q : InMemoryTaskQueue} (id : String) (a : Ref)
      → Reach m q
      → lookup id q.tasks ≡ some a
      → is_pending (q.heap a).status ≡ true
      → Mem a q.queue
  pending_is_queued id a r = Reach-NoneLost r id a

  fits_not_skipped :
      (h : Heap) (req : ResourceRequirements) (clock : ℕ → Time) (i : ℕ) (xs : List Ref) (a : Ref)
      → Mem a xs
      → ((j : ℕ) → is_eligible (h a) req (clock j) ≡ true)
      → NoneEligible h req clock i xs
      → ⊥
  fits_not_skipped h req clock i [] a mem fits skipped = not-mem-nil mem
  fits_not_skipped h req clock i (x ∷ xs) a mem fits skipped =
      Or.elim ⊥_prop (mem-cons.0 mem)
        (λ e.
          let p = subst (λ c. is_eligible (h c) req (clock i) ≡ true) e (fits i) in
          (cc (p, skipped.0)))
        (λ k. fits_not_skipped h req clock (suc i) xs a k fits skipped.1)

  eligible-pending :
      (t : BackgroundTask) (req : ResourceRequirements) (now : Time)
      → is_eligible t req now ≡ true
      → is_pending t.status ≡ true
  eligible-pending t req now h = unfold is_eligible in ground arith

  -- Dequeue returns a task if the map knows one that passes the tests at every instant the call reads,
  -- after any history in which those who hold a task make none pending and leave its priority and
  -- creation time alone, and UpdateTask gets a pending task only if the queue knows it under its id or
  -- has it in the slice.
  pub dequeue_finds :
      {q : InMemoryTaskQueue} (id : String) (a : Ref) (worker : String) (req : ResourceRequirements)
      (clock : ℕ → Time) (now : Time)
      → Reach m q
      → lookup id q.tasks ≡ some a
      → ((i : ℕ) → is_eligible (q.heap a) req (clock i) ≡ true)
      → (r : InMemoryTaskQueue) × (b : Ref) × (dequeue q worker req clock now ≡ (r, some b))
  dequeue_finds {q} id a worker req clock now reach known fits =
      elim (dequeue_lem q worker req clock now) [
        | inl (_, skipped) ↦ absurd (
            fits_not_skipped q.heap req clock 0 q.queue a
              (pending_is_queued id a reach known
                (eligible-pending (q.heap a) req (clock 0) (fits 0)))
              fits skipped)
        | inr (b, rest, e, _) ↦ (_, b, e)
      ]
