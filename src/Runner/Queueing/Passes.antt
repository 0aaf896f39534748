-- ===== src/Runner/Queueing/Passes.antt =====
-- The second section of the challenge runner prints no failure (challenges/runner/main.go).
mod Parts
pub mod Outcomes
use background_tasks.Base.{
  ℕ, ◌≡◌, ◌<◌, refl, ◌∙◌, ap, pos, ℤ, ltb_ℤ, eqb_ℤ, Bool, true, false, none, some, List, [], ◌∷◌,
  String, Time, ltb, arith, Bool-cases, inl, inr, decimal, add_time, ◌+ℤ◌, lookup, insert,
}
use background_tasks.Base.Decimal.{decimal_fuel}
use background_tasks.Task.{TaskStatus, BackgroundTask, TaskPriority, Models}
use background_tasks.Memory.{
  Ref, Heap, InMemoryTaskQueue, update, enqueue_ref, enqueued_task, sort_queue, swap_refs, scan,
  is_eligible, claim, dequeue, peek, peek_from, requeue, move_to_dead_letter, get_pending_count,
  get_queue_depth, get_task, count_where, depth_from, increment,
}
use background_tasks.Memory.Exchange.{exchange_sort}
use background_tasks.Memory.Counts.{depth_at}
use background_tasks.Runner.Queueing.{
  passed, SectionClock, any_size, made, enqueue_inputs, report_counts, after_first, after_second,
  report_second, report_first, queue_of, section2,
}
use background_tasks.Runner.Queueing.Passes.Parts.{
  sort_two, sort_three, sort_last, scan_first, scan_second, dequeue_found, due_eligible, lt→ltb,
  swap_tests, before_trans,
}

module _ (m : Models) (new_background_task : String → String → BackgroundTask) where
  -- A critical task is more urgent than a normal one, and that than a low one.
  pub record Ranked : Type 0 where
    pub critical_first :
        ltb_ℤ (m.weight TaskPriority.critical) (m.weight TaskPriority.normal) ≡ true
    pub normal_first : ltb_ℤ (m.weight TaskPriority.normal) (m.weight TaskPriority.low) ≡ true

  in_order :
      (h : Heap) (x y : Ref)
      → ltb_ℤ (m.weight (h x).priority) (m.weight (h y).priority) ≡ true
      → (swap_refs m h x y ≡ false) × (swap_refs m h y x ≡ true)
  in_order h x y before =
      let (e, e', b) = swap_tests (m.weight (h x).priority) (m.weight (h y).priority) before in
      (rw e b, rw e' before)

  module _ (h : Heap) (a b c : String) (clock : SectionClock) where
    abbrev heap1 : Heap
    heap1 = update (update h 0 (made m new_background_task 0 TaskPriority.critical a)) 0 (
        enqueued_task (made m new_background_task 0 TaskPriority.critical a) "section2-0"
          (clock.enqueued 0))

    abbrev heap2 : Heap
    heap2 = update (update heap1 1 (made m new_background_task 1 TaskPriority.normal b)) 1 (
        enqueued_task (made m new_background_task 1 TaskPriority.normal b) "section2-1"
          (clock.enqueued 1))

    abbrev heap3 : Heap
    heap3 = update (update heap2 2 (made m new_background_task 2 TaskPriority.low c)) 2 (
        enqueued_task (made m new_background_task 2 TaskPriority.low c) "section2-2"
          (clock.enqueued 2))

    abbrev ready : InMemoryTaskQueue
    ready = record {
      heap = heap3;
      tasks = ("section2-0", 0) ∷ ("section2-1", 1) ∷ ("section2-2", 2) ∷ [];
      queue = 0 ∷ 1 ∷ 2 ∷ [];
      id_counter = 0;
    }

    sort_one : sort_queue m heap1 (0 ∷ []) ≡ 0 ∷ []
    unfolding sort_queue exchange_sort
    sort_one = refl

    sort_both : Ranked → sort_queue m heap2 (0 ∷ 1 ∷ []) ≡ 0 ∷ 1 ∷ []
    unfolding sort_queue
    sort_both r = sort_two (swap_refs m heap2) 0 1 (in_order heap2 0 1 r.critical_first).0

    critical_before_low :
        Ranked → ltb_ℤ (m.weight TaskPriority.critical) (m.weight TaskPriority.low) ≡ true
    critical_before_low r =
        before_trans (m.weight TaskPriority.critical) (m.weight TaskPriority.normal)
          (m.weight TaskPriority.low) r.critical_first r.normal_first

    sort_all : Ranked → sort_queue m heap3 (0 ∷ 1 ∷ 2 ∷ []) ≡ 0 ∷ 1 ∷ 2 ∷ []
    unfolding sort_queue
    sort_all r =
        sort_three (swap_refs m heap3) 0 1 2 (in_order heap3 0 1 r.critical_first).0
          (in_order heap3 0 2 (critical_before_low r)).0 (in_order heap3 1 2 r.normal_first).0

    queue_of-ready :
        (rest : List String)
        → Ranked
        → queue_of m new_background_task h (a ∷ b ∷ c ∷ rest) clock ≡ ready
    unfolding enqueue_inputs enqueue_ref decimal decimal_fuel insert
    queue_of-ready rest r = rw sort_one (rw (sort_both r) (rw (sort_all r)))

    counts_pass :
        report_counts m new_background_task ready
        ≡ passed "GetPendingCount"
          ∷ passed "GetQueueDepth"
          ∷ passed "Peek"
          ∷ passed "no-claim invariant"
          ∷ []
    unfolding report_counts get_pending_count get_queue_depth count_where depth_from increment peek
        peek_from depth_at
    counts_pass = refl

    -- The heap behind the first Dequeue and behind the Requeue.
    abbrev heap4 : Heap
    heap4 = update heap3 0 (claim (heap3 0) "section2-worker" clock.first_claim)

    abbrev heap5 : Heap
    heap5 = update heap4 0 (record (heap4 0) {
      status = TaskStatus.pending;
      worker_id = none;
      started_at = none;
      retry_count = (heap4 0).retry_count +ℤ pos 1;
      scheduled_at = add_time clock.requeued (pos 0);
      updated_at = clock.updated;
    })

    abbrev again : InMemoryTaskQueue
    again = record ready { heap = heap5 }

    sort_again : Ranked → sort_queue m heap5 (1 ∷ 2 ∷ 0 ∷ []) ≡ 0 ∷ 1 ∷ 2 ∷ []
    unfolding sort_queue
    sort_again r =
        sort_last (swap_refs m heap5) 1 2 0 (in_order heap5 1 2 r.normal_first).0
          (in_order heap5 0 1 r.critical_first).1 (in_order heap5 1 2 r.normal_first).1

    -- The task that is put back may be due at once or not; the next one is.
    second_passes :
        ltb (new_background_task "locale_demo" b).scheduled_at (clock.second_rounds 1) ≡ true
        → report_second m new_background_task again clock
          ≡ passed "MoveToDeadLetter" ∷ passed "GetTask" ∷ []
    unfolding report_second after_second move_to_dead_letter get_task lookup
    second_passes due =
        elim (Bool-cases (ltb (add_time clock.requeued (pos 0)) (clock.second_rounds 0))) [
          | inl at_once ↦
              ap (λ r. after_second m new_background_task r clock)
                (dequeue_found again "section2-worker" clock.second_rounds clock.second_claim 0
                  (1 ∷ 2 ∷ [])
                  (scan_first heap5 clock.second_rounds 0 1 (2 ∷ [])
                    (due_eligible (heap5 0) (clock.second_rounds 0) true refl at_once)))
          | inr not_yet ↦
              ap (λ r. after_second m new_background_task r clock)
                (dequeue_found again "section2-worker" clock.second_rounds clock.second_claim 1
                  (0 ∷ 2 ∷ [])
                  (scan_second heap5 clock.second_rounds 0 1 (2 ∷ [])
                    (due_eligible (heap5 0) (clock.second_rounds 0) false refl not_yet)
                    (due_eligible (heap5 1) (clock.second_rounds 1) true refl due)))
        ]

    abbrev claimed : InMemoryTaskQueue
    claimed = record ready { heap = heap4; queue = 1 ∷ 2 ∷ [] }

    requeue_claimed :
        Ranked → requeue m claimed "section2-0" (pos 0) clock.requeued clock.updated ≡ (again, none)
    unfolding requeue lookup
    requeue_claimed r = rw (sort_again r)

    claimed_passes :
        Ranked
        → ltb (new_background_task "locale_demo" b).scheduled_at (clock.second_rounds 1) ≡ true
        → after_first m new_background_task (claimed, some 0) clock
          ≡ passed "priority-order"
            ∷ passed "Requeue"
            ∷ passed "MoveToDeadLetter"
            ∷ passed "GetTask"
            ∷ []
    unfolding after_first
    claimed_passes r due =
        rw (requeue_claimed r, after_first)
          (ap (λ ls. passed "priority-order" ∷ passed "Requeue" ∷ ls) (second_passes due))

    first_passes :
        Ranked
        → ltb (new_background_task "locale_demo" a).scheduled_at (clock.first_rounds 0) ≡ true
        → ltb (new_background_task "locale_demo" b).scheduled_at (clock.second_rounds 1) ≡ true
        → report_first m new_background_task ready clock
          ≡ passed "priority-order"
            ∷ passed "Requeue"
            ∷ passed "MoveToDeadLetter"
            ∷ passed "GetTask"
            ∷ []
    unfolding report_first
    first_passes r due due' =
        ap (λ found. after_first m new_background_task found clock)
          (dequeue_found ready "section2-worker" clock.first_rounds clock.first_claim 0 (1 ∷ 2 ∷ [])
            (scan_first heap3 clock.first_rounds 0 1 (2 ∷ [])
              (due_eligible (heap3 0) (clock.first_rounds 0) true refl due)))
        ∙ claimed_passes r due'

  -- The second section prints no failure on any fixture with three inputs or more: all eight checks
  -- pass, if the weights rank critical before normal before low, the first task is due when the
  -- first Dequeue looks at it, and the second when the second Dequeue does. The task that is put
  -- back may be due by then or not. The weights are those of digital.vasic.models, which the repository
  -- does not have; the lifecycle document lists the opposite order, for which Outcomes has the result.
  pub section2_passes :
      (h : Heap) (a b c : String) (rest : List String) (clock : SectionClock)
      → Ranked
      → (new_background_task "locale_demo" a).scheduled_at < clock.first_rounds 0
      → (new_background_task "locale_demo" b).scheduled_at < clock.second_rounds 1
      → section2 m new_background_task h (a ∷ b ∷ c ∷ rest) clock
        ≡ passed "GetPendingCount"
          ∷ passed "GetQueueDepth"
          ∷ passed "Peek"
          ∷ passed "no-claim invariant"
          ∷ passed "priority-order"
          ∷ passed "Requeue"
          ∷ passed "MoveToDeadLetter"
          ∷ passed "GetTask"
          ∷ []
  unfolding section2
  section2_passes h a b c rest clock r due due' = rw (queue_of-ready h a b c clock rest r) (
      rw (counts_pass h a b c clock)
        (rw (first_passes h a b c clock r (lt→ltb _ _ due) (lt→ltb _ _ due'))))
