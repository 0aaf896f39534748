-- ===== src/Runner/Queueing/Passes/Outcomes.antt =====
-- The outcome of the second section of the challenge runner by the weights of the priorities, which
-- digital.vasic.models gives (challenges/runner/main.go, docs/TASK_LIFECYCLE.md).
use background_tasks.Base.{◌≡◌, ◌<◌, refl, Bool, ap, pos, ltb_ℤ, true, List, [], ◌∷◌, String, ltb}
use background_tasks.Task.{BackgroundTask, TaskPriority, Models}
use background_tasks.Memory.{
  Heap, InMemoryTaskQueue, enqueue_ref, sort_queue, swap_refs, get_pending_count, get_queue_depth,
  count_where, depth_from, increment, peek, peek_from,
}
use background_tasks.Base.{insert, decimal}
use background_tasks.Base.Decimal.{decimal_fuel}
use background_tasks.Memory.Counts.{depth_at}
use background_tasks.Memory.Exchange.{exchange_sort}
use background_tasks.Runner.Queueing.{
  Line, passed, failed, SectionClock, enqueue_inputs, queue_of, report_counts, report_first,
  after_first, section2,
}
use background_tasks.Runner.Queueing.Passes
use background_tasks.Runner.Queueing.Passes.{Ranked, section2_passes}
use background_tasks.Runner.Queueing.Passes.Parts.{
  sort_last, scan_first, dequeue_found, due_eligible, lt→ltb,
}

-- The weights of the table in the document.
pub record Documented (m : Models) : Type 0 where
  pub critical : m.weight TaskPriority.critical ≡ pos 4
  pub normal : m.weight TaskPriority.normal ≡ pos 2
  pub low : m.weight TaskPriority.low ≡ pos 1

sort_swapped {ℓ} :
    {A : Type ℓ} (swap : A → A → Bool) (x y : A)
    → swap x y ≡ true
    → exchange_sort swap (x ∷ y ∷ []) ≡ y ∷ x ∷ []
unfolding exchange_sort
sort_swapped swap x y h = rw h

module _ (m : Models) (new_background_task : String → String → BackgroundTask)
    (doc : Documented m) where
  low_first : ltb_ℤ (m.weight TaskPriority.low) (m.weight TaskPriority.normal) ≡ true
  low_first = rw (doc.low, doc.normal) refl

  normal_first : ltb_ℤ (m.weight TaskPriority.normal) (m.weight TaskPriority.critical) ≡ true
  normal_first = rw (doc.normal, doc.critical) refl

  module _ (h : Heap) (a b c : String) (clock : SectionClock) where
    abbrev heap2 : Heap
    heap2 = Passes.heap2 m new_background_task h a b c clock

    abbrev heap3 : Heap
    heap3 = Passes.heap3 m new_background_task h a b c clock

    -- The queue is in the opposite order.
    abbrev reversed : InMemoryTaskQueue
    reversed = record (Passes.ready m new_background_task h a b c clock) { queue = 2 ∷ 1 ∷ 0 ∷ [] }

    sort_both : sort_queue m heap2 (0 ∷ 1 ∷ []) ≡ 1 ∷ 0 ∷ []
    unfolding sort_queue
    sort_both =
        sort_swapped (swap_refs m heap2) 0 1
          (Passes.in_order m new_background_task heap2 1 0 normal_first).1

    sort_all : sort_queue m heap3 (1 ∷ 0 ∷ 2 ∷ []) ≡ 2 ∷ 1 ∷ 0 ∷ []
    unfolding sort_queue
    sort_all =
        sort_last (swap_refs m heap3) 1 0 2
          (Passes.in_order m new_background_task heap3 1 0 normal_first).0
          (Passes.in_order m new_background_task heap3 2 1 low_first).1
          (Passes.in_order m new_background_task heap3 1 0 normal_first).1

    queue_of-reversed :
        (rest : List String) → queue_of m new_background_task h (a ∷ b ∷ c ∷ rest) clock ≡ reversed
    unfolding enqueue_inputs enqueue_ref decimal decimal_fuel insert
    queue_of-reversed rest =
        rw (Passes.sort_one m new_background_task h a b c clock) (rw sort_both (rw sort_all))

    counts_pass :
        report_counts m new_background_task reversed
        ≡ passed "GetPendingCount"
          ∷ passed "GetQueueDepth"
          ∷ passed "Peek"
          ∷ passed "no-claim invariant"
          ∷ []
    unfolding report_counts get_pending_count get_queue_depth count_where depth_from increment peek
        peek_from depth_at
    counts_pass = refl

    first_fails :
        ltb (new_background_task "locale_demo" c).scheduled_at (clock.first_rounds 0) ≡ true
        → (rest : List Line) × (report_first m new_background_task reversed clock
            ≡ failed "priority-order" ∷ rest)
    unfolding report_first after_first
    first_fails due = (
      _,
      ap (λ found. after_first m new_background_task found clock)
          (dequeue_found reversed "section2-worker" clock.first_rounds clock.first_claim 2
            (1 ∷ 0 ∷ [])
            (scan_first heap3 clock.first_rounds 2 1 (0 ∷ [])
              (due_eligible (heap3 2) (clock.first_rounds 0) true refl due))),
    )

    -- With the weights of the lifecycle document the second section fails: the queue puts the low task
    -- first, so on any fixture with three inputs or more, the third of which is due when the first
    -- Dequeue looks at it, the four checks of the counts pass and the check of the order fails, which
    -- expects the critical task.
    pub section2_fails :
        (rest : List String)
        → (new_background_task "locale_demo" c).scheduled_at < clock.first_rounds 0
        → (others : List Line) × (section2 m new_background_task h (a ∷ b ∷ c ∷ rest) clock
            ≡ passed "GetPendingCount"
              ∷ passed "GetQueueDepth"
              ∷ passed "Peek"
              ∷ passed "no-claim invariant"
              ∷ failed "priority-order"
              ∷ others)
    unfolding section2
    section2_fails rest due =
        let (others, e) = first_fails (lt→ltb _ _ due) in
        (others, rw (queue_of-reversed rest) (rw counts_pass (rw e refl)))
