-- ===== src/Memory/Order.antt =====
-- The order of the queue: sortQueue and shouldSwap of task_queue.go, and what keeps it.
use mathlib.Core.Path.{fun_ext}
use background_tasks.Base.{
  ℕ, ◌≡◌, ℤ, Bool, true, false, not, List, arith, Perm, ltb, ltb_ℤ, eqb_ℤ, if◌then◌else◌, subst,
  sym,
}
use background_tasks.Task.{BackgroundTask, Models}
use background_tasks.Memory.Exchange.{
  IsOrdered, IsStrictWeak, exchange_sort-IsOrdered, exchange_sort-perm,
}
use background_tasks.Memory.{Ref, Heap, update, swap_refs, sort_queue}

-- The test of shouldSwap on the two keys of each task.
abbrev key_swap : ℤ → ℕ → ℤ → ℕ → Bool
key_swap x s y t = if not (eqb_ℤ x y) then ltb_ℤ y x else ltb t s

key_swap_asym : (x y : ℤ) (s t : ℕ) → key_swap x s y t ≡ true → key_swap y t x s ≡ false
key_swap_asym x y s t h = ground arith

key_swap_trans :
    (x y z : ℤ) (s t u : ℕ)
    → key_swap x s y t ≡ false
    → key_swap y t z u ≡ false
    → key_swap x s z u ≡ false
key_swap_trans x y z s t u h k = ground arith

module _ (m : Models) where
  pub swap_refs-IsStrictWeak : (h : Heap) → IsStrictWeak (swap_refs m h)
  swap_refs-IsStrictWeak h = record {
    asym = λ a b. key_swap_asym (m.weight (h a).priority) (m.weight (h b).priority) _ _;
    trans = λ a b c.
        key_swap_trans (m.weight (h a).priority) (m.weight (h b).priority) (m.weight (h c).priority)
          _ _ _;
  }

  abbrev pub IsSorted : Heap → List Ref → Type 0
  IsSorted h = IsOrdered (swap_refs m h)

  pub sort_queue-IsSorted : (h : Heap) (xs : List Ref) → IsSorted h (sort_queue m h xs)
  unfolding sort_queue
  sort_queue-IsSorted h xs = exchange_sort-IsOrdered (swap_refs m h) (swap_refs-IsStrictWeak h) xs

  pub sort_queue-perm : (h : Heap) (xs : List Ref) → Perm (sort_queue m h xs) xs
  unfolding sort_queue
  sort_queue-perm h xs = exchange_sort-perm (swap_refs m h) xs

  -- A write that keeps the priority and the creation time of a task keeps the order.
  update_keeps_keys :
      (h : Heap) (a : Ref) (t : BackgroundTask)
      → t.priority ≡ (h a).priority
      → t.created_at ≡ (h a).created_at
      → swap_refs m (update h a t) ≡ swap_refs m h
  update_keeps_keys h a t p c =
      fun_ext
        λ x. fun_ext λ y. rw (priority_kept x, priority_kept y, created_kept x, created_kept y)
    where
      priority_kept : (b : Ref) → (update h a t b).priority ≡ (h b).priority
      priority_kept b = ground arith

      created_kept : (b : Ref) → (update h a t b).created_at ≡ (h b).created_at
      created_kept b = ground arith

  pub update-IsSorted :
      (h : Heap) (a : Ref) (t : BackgroundTask) (xs : List Ref)
      → t.priority ≡ (h a).priority
      → t.created_at ≡ (h a).created_at
      → IsSorted h xs
      → IsSorted (update h a t) xs
  update-IsSorted h a t xs p c s = subst (λ f. IsOrdered f xs) (sym (update_keeps_keys h a t p c)) s
