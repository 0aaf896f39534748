-- ===== src/Checks/Memory.antt =====
-- InMemoryTaskQueue: runs, and the theorems at concrete inputs.
use mathlib.Core.List.{Mem}
use background_tasks.Base.{
  lookup, insert, ℕ, ◌+◌, ◌≡◌, ◌≢◌, refl, ◌⊎◌, pos, true, false, Option, some, [], ◌∷◌, All,
  decimal, ◌==◌, if◌then◌else◌,
}
use background_tasks.Task.{TaskPriority, is_pending}
use background_tasks.Memory.{
  Ref, Heap, InMemoryTaskQueue, EnqueueTimes, enqueue_ref, dequeue, requeue, peek,
  get_pending_count, get_queue_depth, scan, new_in_memory_task_queue, auto_id, swap_refs,
  is_eligible, sort_queue,
}
use background_tasks.Memory.Exchange.{exchange_sort}
use background_tasks.Memory.Order.{IsSorted}
use background_tasks.Memory.Claim.{dequeue_exclusive, dequeue_serves_best}
use background_tasks.Memory.Steps.{Reach, Reach-InOrder, start, next, enqueues}
use background_tasks.Memory.NoLoss.{pending_is_queued, dequeue_finds}
use background_tasks.Memory.Counts.{get_queue_depth_exact, total}
use background_tasks.Memory.Bag
use background_tasks.Memory.Bag.Refines.{perform_all_refines}
use background_tasks.Checks.Samples.{sample_models, sample_task, no_limits}

abbrev objects : Heap
objects a =
    if a == 0
    then sample_task "a" TaskPriority.low
    else if a == 1
    then sample_task "" TaskPriority.high
    else sample_task "c" TaskPriority.high

abbrev times : ℕ → EnqueueTimes
times t = record { stamp = t; created = t; updated = t }

abbrev empty_queue : InMemoryTaskQueue
empty_queue = new_in_memory_task_queue objects

abbrev one : InMemoryTaskQueue
one = enqueue_ref sample_models empty_queue 0 (times 10)

abbrev two : InMemoryTaskQueue
two = enqueue_ref sample_models one 1 (times 20)

abbrev three : InMemoryTaskQueue
three = enqueue_ref sample_models two 2 (times 30)

abbrev served : InMemoryTaskQueue × Option Ref
served = dequeue three "w1" no_limits (λ i. 40) 41

three_order : three.queue ≡ 1 ∷ 2 ∷ 0 ∷ []
unfolding enqueue_ref sort_queue exchange_sort
three_order = refl

auto_id_run : (three.heap 1).id ≡ "task-20-1"
unfolding enqueue_ref auto_id decimal
auto_id_run = refl

served_high : served.1 ≡ some 1
unfolding dequeue scan enqueue_ref sort_queue exchange_sort is_eligible
served_high = refl

served_rest : served.0.queue ≡ 2 ∷ 0 ∷ []
unfolding dequeue scan enqueue_ref sort_queue exchange_sort is_eligible
served_rest = refl

-- A task that is requeued while it stands in the slice stands there twice.
requeued_twice : (requeue sample_models three "c" (pos 5) 50 51).0.queue ≡ 1 ∷ 2 ∷ 2 ∷ 0 ∷ []
unfolding requeue lookup insert enqueue_ref sort_queue exchange_sort auto_id decimal
requeued_twice = refl

peek_two : peek three (pos 2) ≡ some (1 ∷ 2 ∷ [])
unfolding peek enqueue_ref sort_queue exchange_sort
peek_two = refl

three-Reach : Reach sample_models three
three-Reach =
    next (next (next (start objects) (enqueues 0 (times 10))) (enqueues 1 (times 20)))
      (enqueues 2 (times 30))

Reach-InOrder_example : IsSorted sample_models three.heap three.queue
Reach-InOrder_example = Reach-InOrder sample_models three-Reach

c_known : lookup "c" three.tasks ≡ some 2
unfolding lookup insert enqueue_ref auto_id decimal
c_known = refl

pending_is_queued_example : Mem 2 three.queue
pending_is_queued_example = pending_is_queued sample_models "c" 2 three-Reach c_known c_pending
  where
    c_pending : is_pending (three.heap 2).status ≡ true
    c_pending = unfold enqueue_ref in refl

dequeue_finds_example :
    (r : InMemoryTaskQueue) × (b : Ref) × (dequeue three "w1" no_limits (λ i. 40) 41 ≡ (r, some b))
dequeue_finds_example =
    dequeue_finds sample_models "c" 2 "w1" no_limits (λ i. 40) 41 three-Reach c_known
      λ i. unfold enqueue_ref is_eligible in refl

served_first : dequeue three "w1" no_limits (λ i. 40) 41 ≡ (served.0, some 1)
unfolding dequeue scan enqueue_ref sort_queue exchange_sort is_eligible
served_first = refl

abbrev served_again : InMemoryTaskQueue × Option Ref
served_again = dequeue served.0 "w2" no_limits (λ i. 42) 43

served_second : dequeue served.0 "w2" no_limits (λ i. 42) 43 ≡ (served_again.0, some 2)
unfolding dequeue scan enqueue_ref sort_queue exchange_sort is_eligible
served_second = refl

dequeue_exclusive_example : ◌≢◌ {A = ℕ} 1 2
dequeue_exclusive_example =
    dequeue_exclusive three "w1" "w2" no_limits no_limits (λ i. 40) (λ i. 42) 41 43 served_first
      served_second

dequeue_serves_best_example :
    All
      (λ b.
        (is_eligible (three.heap b) no_limits 40 ≡ false)
        ⊎ (swap_refs sample_models three.heap 1 b ≡ false))
      three.queue
dequeue_serves_best_example =
    dequeue_serves_best sample_models three "w1" no_limits 40 41 Reach-InOrder_example' served_first
  where
    Reach-InOrder_example' : IsSorted sample_models three.heap three.queue
    Reach-InOrder_example' = Reach-InOrder sample_models three-Reach

get_queue_depth_exact_example : total (get_queue_depth three) ≡ get_pending_count three
get_queue_depth_exact_example = (get_queue_depth_exact three).1

perform_all_refines_example :
    let calls =
      Bag.dequeues "w1" no_limits (λ i. 40 + i) 50
      ∷ Bag.requeues "c" (pos 5) 60 61
      ∷ Bag.buries "zzz" "gone" 70
      ∷ Bag.dequeues "w2" no_limits (λ i. 80) 81
      ∷ [] in
    let (r, os) = Bag.perform_all sample_models three calls in
    Bag.Trace sample_models (Bag.view three) calls os (Bag.view r)
perform_all_refines_example =
    perform_all_refines sample_models
      (Bag.dequeues "w1" no_limits (λ i. 40 + i) 50
        ∷ Bag.requeues "c" (pos 5) 60 61
        ∷ Bag.buries "zzz" "gone" 70
        ∷ Bag.dequeues "w2" no_limits (λ i. 80) 81
        ∷ [])
      three-Reach
