-- ===== src/Runner/Queueing/Passes/Parts.antt =====
-- Sorting up to three entries, and a Dequeue that finds the first or the second task
-- (task_queue.go), as the second section of the challenge runner meets them.
use background_tasks.Base.{
  ℕ, ◌≡◌, ◌<◌, ℤ, ltb_ℤ, eqb_ℤ, Bool, true, false, some, List, [], ◌∷◌, String, Time, ltb, arith,
}
use background_tasks.Task.{TaskStatus, BackgroundTask}
use background_tasks.Memory.{
  Ref, Heap, InMemoryTaskQueue, update, scan, is_eligible, claim, dequeue,
}
use background_tasks.Memory.Exchange.{exchange_sort}
use background_tasks.Runner.Queueing.{any_size}

module _ {ℓ} {A : Type ℓ} (swap : A → A → Bool) where
  pub sort_two : (x y : A) → swap x y ≡ false → exchange_sort swap (x ∷ y ∷ []) ≡ x ∷ y ∷ []
  unfolding exchange_sort
  sort_two x y h = rw h

  pub sort_three :
      (x y z : A)
      → swap x y ≡ false
      → swap x z ≡ false
      → swap y z ≡ false
      → exchange_sort swap (x ∷ y ∷ z ∷ []) ≡ x ∷ y ∷ z ∷ []
  unfolding exchange_sort
  sort_three x y z h k l = rw h (rw k (rw l))

  -- The last entry comes first.
  pub sort_last :
      (x y z : A)
      → swap x y ≡ false
      → swap x z ≡ true
      → swap y x ≡ true
      → exchange_sort swap (x ∷ y ∷ z ∷ []) ≡ z ∷ x ∷ y ∷ []
  unfolding exchange_sort
  sort_last x y z h k l = rw h (rw k (rw l))

module _ (h : Heap) (clock : ℕ → Time) (a b : Ref) (rest : List Ref) where
  pub scan_first :
      is_eligible (h a) any_size (clock 0) ≡ true
      → scan h any_size clock 0 (a ∷ b ∷ rest) ≡ some (a, b ∷ rest)
  unfolding scan
  scan_first e = rw e

  pub scan_second :
      is_eligible (h a) any_size (clock 0) ≡ false
      → is_eligible (h b) any_size (clock 1) ≡ true
      → scan h any_size clock 0 (a ∷ b ∷ rest) ≡ some (b, a ∷ rest)
  unfolding scan
  scan_second e f = rw e (rw f)

pub dequeue_found :
    (q : InMemoryTaskQueue) (worker : String) (clock : ℕ → Time) (now : Time) (a : Ref)
    (rest : List Ref)
    → scan q.heap any_size clock 0 q.queue ≡ some (a, rest)
    → dequeue q worker any_size clock now
      ≡ (record q { heap = update q.heap a (claim (q.heap a) worker now); queue = rest }, some a)
unfolding dequeue
dequeue_found q worker clock now a rest e = rw (e, dequeue)

-- A task that is pending is eligible exactly if it is due.
pub due_eligible :
    (t : BackgroundTask) (now : Time) (due : Bool)
    → t.status ≡ TaskStatus.pending
    → ltb t.scheduled_at now ≡ due
    → is_eligible t any_size now ≡ due
unfolding is_eligible
due_eligible t now true p e = rw p (rw e)
due_eligible t now false p e = rw p (rw e)

pub lt→ltb : (s t : Time) → s < t → ltb s t ≡ true
lt→ltb s t h = ground arith

pub swap_tests :
    (x y : ℤ) → ltb_ℤ x y ≡ true → (eqb_ℤ x y ≡ false) × (eqb_ℤ y x ≡ false) × (ltb_ℤ y x ≡ false)
swap_tests x y h = ground arith

pub before_trans : (x y z : ℤ) → ltb_ℤ x y ≡ true → ltb_ℤ y z ≡ true → ltb_ℤ x z ≡ true
before_trans x y z h k = ground arith
