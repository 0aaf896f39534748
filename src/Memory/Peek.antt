-- ===== src/Memory/Peek.antt =====
-- Peek of InMemoryTaskQueue (task_queue.go): `count` limits the positions that are looked at, not the
-- tasks that are returned.
use background_tasks.Base.{
  ℕ, zero, suc, ◌+◌, ◌≡◌, refl, ◌≤◌, pos, negsuc, none, some, List, [], ◌∷◌, arith, take,
  if◌then◌else◌, ap,
}
use background_tasks.Task.{is_pending}
use background_tasks.Memory.{Ref, Heap, InMemoryTaskQueue, peek, peek_from}

-- The pending tasks among the given references, in their order.
pub pending_of : Heap → List Ref → List Ref
pending_of h [] = []
pending_of h (a ∷ rest) =
    let later = pending_of h rest in if is_pending (h a).status then a ∷ later else later

peek_from-past : (h : Heap) (n i : ℕ) (xs : List Ref) → n ≤ i → peek_from h n i xs ≡ []
unfolding peek_from
peek_from-past h n i [] le = refl
peek_from-past h n i (a ∷ xs) le = ground arith

peek_from-eq :
    (h : Heap) (n k i : ℕ) (xs : List Ref)
    → n ≡ k + i
    → peek_from h n i xs ≡ pending_of h (take k xs)
unfolding pending_of peek_from
peek_from-eq h n zero i xs e = peek_from-past h n i xs (omega arith)
peek_from-eq h n (suc k) i [] e = refl
peek_from-eq h n (suc k) i (a ∷ xs) e = ground (arith, peek_from-eq h n k (suc i) xs (omega arith))

-- Peek returns the pending tasks of the first `count` positions, in order; it panics exactly for a
-- negative count.
pub peek_lem :
    (q : InMemoryTaskQueue)
    → ((n : ℕ) → peek q (pos n) ≡ some (pending_of q.heap (take n q.queue)))
      × ((n : ℕ) → peek q (negsuc n) ≡ none)
unfolding peek
peek_lem q = (λ n. ap some (peek_from-eq q.heap n n 0 q.queue (omega arith)), λ n. refl)
