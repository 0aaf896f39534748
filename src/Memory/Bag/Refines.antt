-- ===== src/Memory/Bag/Refines.antt =====
-- InMemoryTaskQueue keeps the contract of a bag of entries (task_queue.go).
use mathlib.Core.List.{Mem, mem-cons, not-mem-nil}
use mathlib.Core.List.Perm
use mathlib.Core.Logic.Or
use mathlib.Core.HLevel.{⊥_prop}
use mathlib.Mathlib.Data.Multiset.Defs.{Multiset, of_list, coe-eq-coe}
use mathlib.Mathlib.Data.Multiset.ZeroCons.{cons}
use background_tasks.Base.{
  ℕ, suc, ◌+◌, ◌≡◌, refl, sym, inl, inr, true, false, List, [], ◌∷◌, ◌++◌, String, Time, Duration,
  subst, All, Option-cases, lookup, Perm, perm_middle, length, add_time,
}
use background_tasks.Task.{ResourceRequirements, Models}
use background_tasks.Memory.{
  Ref, Heap, InMemoryTaskQueue, EnqueueTimes, swap_refs, is_eligible, assign_id, enqueue_ref,
  requeue, dequeue, move_to_dead_letter, update_task, sort_queue,
}
use background_tasks.Memory.Exchange.{irrefl}
use background_tasks.Memory.Order.{
  IsSorted, sort_queue-perm, sort_queue-IsSorted, update-IsSorted, swap_refs-IsStrictWeak,
}
use background_tasks.Memory.Claim.{dequeue_lem, NoneEligible, IsFirst}
use background_tasks.Memory.Contract.{append_perm}
use background_tasks.Memory.Steps.{
  Reach, Reach, Reach-InOrder, InOrder, requeue-InOrder, dead_letter-InOrder, dequeue-InOrder,
}
use background_tasks.Memory.Bag.{
  Call, Allows, Trace, view, perform, perform_all, given_back, put, enqueues, dequeues, requeues,
  buries, updates, writes, done, served, adds, serves, idles, gives_back, cannot_give_back, dies,
  cannot_die, notes, changes, stay, step,
}

all_mem :
    (P : Ref → Type 0)
    → ((b : Ref) → IsProp (P b))
    → (xs : List Ref) → All P xs
    → (b : Ref) → Mem b xs
    → P b
all_mem P is_prop [] all b i = absurd (not-mem-nil i)
all_mem P is_prop (x ∷ xs) all b i =
    Or.elim (is_prop b) (mem-cons.0 i) (λ e. subst P (sym e) all.0) (all_mem P is_prop xs all.1 b)

-- The slice is sorted anew with one more entry: the bag gains it.
sorted_bag :
    (m : Models) (h : Heap) (xs : List Ref) (a : Ref)
    → ◌≡◌ {A = Multiset Ref} (of_list (sort_queue m h (xs ++ a ∷ []))) (cons a (of_list xs))
sorted_bag m h xs a = coe-eq-coe.1 (Perm.trans (sort_queue-perm m h _) (append_perm xs a))

fails_once :
    (h : Heap) (req : ResourceRequirements) (t : Time) (b x : Ref)
    → b ≡ x
    → is_eligible (h x) req t ≡ false
    → is_eligible (h b) req t ≡ true
    → ⊥
fails_once h req t b x e fails passes = cc

none_always :
    (h : Heap) (req : ResourceRequirements) (clock : ℕ → Time) (i : ℕ) (xs : List Ref)
    → NoneEligible h req clock i xs
    → (b : Ref) → Mem b xs
    → ¬ ((j : ℕ) → is_eligible (h b) req (clock j) ≡ true)
none_always h req clock i [] none_passes b mem always = not-mem-nil mem
none_always h req clock i (x ∷ xs) (fails, none_passes) b mem always =
    Or.elim ⊥_prop (mem-cons.0 mem) (λ e. fails_once h req (clock i) b x e fails (always i))
      (λ later. none_always h req clock (suc i) xs none_passes b later always)

taken_out :
    {h : Heap} {req : ResourceRequirements} {clock : ℕ → Time} {i : ℕ} {xs rest : List Ref}
    (a : Ref)
    → IsFirst h req clock i xs a rest
    → Perm xs (a ∷ rest)
taken_out {xs = xs} a first = rw (first.split, first.others) (perm_middle first.before first.after)

module _ (m : Models) where
  -- No entry that passes at every instant goes before the first that passed in its round.
  first_goes_first :
      (h : Heap) (req : ResourceRequirements) (clock : ℕ → Time) (i : ℕ) (a : Ref)
      (before after : List Ref)
      → IsSorted m h (before ++ a ∷ after)
      → NoneEligible h req clock i before
      → (b : Ref) → Mem b (before ++ a ∷ after)
      → ((j : ℕ) → is_eligible (h b) req (clock j) ≡ true)
      → swap_refs m h a b ≡ false
  first_goes_first h req clock i a [] after sorted skipped b mem always =
      all_mem (λ b. swap_refs m h a b ≡ false) (λ b. hlevel) (a ∷ after)
        (irrefl (swap_refs m h) (swap_refs-IsStrictWeak m h) a, sorted.0) b mem
  first_goes_first h req clock i a (x ∷ before) after sorted (fails, skipped) b mem always =
      Or.elim (hlevel) (mem-cons.0 mem)
        (λ e. absurd (fails_once h req (clock i) b x e fails (always i)))
        (λ later.
          first_goes_first h req clock (suc i) a before after sorted.1 skipped b later always)

  enqueue-Allows :
      (q : InMemoryTaskQueue) (a : Ref) (ts : EnqueueTimes)
      → Allows m (view q) (enqueues a ts) done (view (enqueue_ref m q a ts))
  unfolding enqueue_ref
  enqueue-Allows q a ts =
      let (id, counter) = assign_id (q.heap a).id q.id_counter ts.stamp in
      subst
        (λ b.
          Allows m (view q) (enqueues a ts) done (record (view (enqueue_ref m q a ts)) { bag = b }))
        (sym (sorted_bag m _ q.queue a)) (adds a ts id counter refl)

  dequeue-Allows :
      (q : InMemoryTaskQueue) (worker : String) (req : ResourceRequirements) (clock : ℕ → Time)
      (now : Time)
      → IsSorted m q.heap q.queue
      → let (r, found) = dequeue q worker req clock now in
        Allows m (view q) (dequeues worker req clock now) (served found) (view r)
  dequeue-Allows q worker req clock now sorted = elim (dequeue_lem q worker req clock now) [
    | inl (e, none_passes) ↦
        rw e (idles worker req clock now (none_always q.heap req clock 0 q.queue none_passes))
    | inr (a, rest, e, first) ↦ rw e (
        serves worker req clock now a (of_list rest) (0 + length first.before)
          (coe-eq-coe.1 (taken_out a first)) first.passes
          (λ b mem always.
            first_goes_first q.heap req clock 0 a first.before first.after
              (subst (IsSorted m q.heap) first.split sorted) first.skipped b
              (subst (Mem b) first.split mem) always))
  ]

  requeue-Allows :
      (q : InMemoryTaskQueue) (task_id : String) (delay : Duration) (now updated : Time)
      → let (r, o) = perform m q (requeues task_id delay now updated) in
        Allows m (view q) (requeues task_id delay now updated) o (view r)
  unfolding perform requeue
  requeue-Allows q task_id delay now updated = elim (Option-cases (lookup task_id q.tasks)) [
    | inl e ↦ rw (e, perform, requeue) (cannot_give_back task_id delay now updated e)
    | inr (a, e) ↦
        rw (e, perform, requeue)
          (subst
            (λ b.
              Allows m (view q) (requeues task_id delay now updated) done
                (record (put (view q) a (given_back (q.heap a) (add_time now delay) updated)) {
                  bag = b;
                }))
            (sym (sorted_bag m _ q.queue a)) (gives_back task_id delay now updated a e))
  ]

  bury-Allows :
      (q : InMemoryTaskQueue) (task_id reason : String) (now : Time)
      → let (r, o) = perform m q (buries task_id reason now) in
        Allows m (view q) (buries task_id reason now) o (view r)
  unfolding perform move_to_dead_letter
  bury-Allows q task_id reason now = elim (Option-cases (lookup task_id q.tasks)) [
    | inl e ↦ rw (e, perform, move_to_dead_letter) (cannot_die task_id reason now e)
    | inr (a, e) ↦ rw (e, perform, move_to_dead_letter) (dies task_id reason now a e)
  ]

  perform-Allows :
      (q : InMemoryTaskQueue) (c : Call)
      → InOrder m q
      → let (r, o) = perform m q c in Allows m (view q) c o (view r) × InOrder m r
  unfolding perform update_task enqueue_ref
  perform-Allows q (enqueues a ts) sorted = (enqueue-Allows q a ts, sort_queue-IsSorted m _ _)
  perform-Allows q (dequeues worker req clock now) sorted = (
    dequeue-Allows q worker req clock now sorted,
    dequeue-InOrder m q worker req clock now sorted,
  )
  perform-Allows q (requeues task_id delay now updated) sorted = (
    requeue-Allows q task_id delay now updated,
    requeue-InOrder m q task_id delay now updated sorted,
  )
  perform-Allows q (buries task_id reason now) sorted =
      (bury-Allows q task_id reason now, dead_letter-InOrder m q task_id reason now sorted)
  perform-Allows q (updates a now) sorted =
      (notes a now, update-IsSorted m q.heap a _ q.queue refl refl sorted)
  perform-Allows q (writes a f p c) sorted =
      (changes a f p c, update-IsSorted m q.heap a _ q.queue (p (q.heap a)) (c (q.heap a)) sorted)

  run-Trace :
      (q : InMemoryTaskQueue) (cs : List Call)
      → InOrder m q
      → let (r, os) = perform_all m q cs in Trace m (view q) cs os (view r)
  unfolding perform_all
  run-Trace q [] sorted = stay
  run-Trace q (c ∷ cs) sorted =
      let (allowed, sorted') = perform-Allows q c sorted in
      step allowed (run-Trace (perform m q c).0 cs sorted')

  -- From any state that a history reaches, the answers and the state of any further calls, seen
  -- without the order of the slice, are what the contract of a bag of entries allows: in
  -- particular each task served passes the tests, no task that does so during the whole call goes
  -- before it, and nothing is served only when no task does.
  pub perform_all_refines :
      {q : InMemoryTaskQueue} (cs : List Call)
      → Reach m q
      → let (r, os) = perform_all m q cs in Trace m (view q) cs os (view r)
  perform_all_refines {q} cs reach = run-Trace q cs (Reach-InOrder m reach)
