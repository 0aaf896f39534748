-- ===== src/Memory/Claim.antt =====
-- What Dequeue of InMemoryTaskQueue claims (task_queue.go).
use background_tasks.Base.{
  ℕ, suc, ◌+◌, ◌≡◌, refl, sym, ap, subst, ◌≢◌, ◌⊎◌, inl, inr, true, false, none, some, List, [],
  ◌∷◌, ◌++◌, String, Time, arith, All, length, All-imp, Bool-cases,
}
use native.Mathlib.Nat.{add-zero, add-suc, suc-add}
use background_tasks.Task.{BackgroundTask, ResourceRequirements, Models}
use background_tasks.Memory.Exchange.{irrefl}
use background_tasks.Memory.{
  Ref, Heap, update, InMemoryTaskQueue, swap_refs, dequeue, claim, scan, is_eligible,
}
use background_tasks.Memory.Order.{IsSorted, swap_refs-IsStrictWeak}

-- No entry passes the tests of the round that looks at it; the first round is `i`.
abbrev pub NoneEligible : Heap → ResourceRequirements → (ℕ → Time) → ℕ → List Ref → Type 0
NoneEligible h req clock i [] = Unit
NoneEligible h req clock i (a ∷ rest) =
    (is_eligible (h a) req (clock i) ≡ false) × NoneEligible h req clock (suc i) rest

-- `a` is the first entry of `xs` that passes the tests of its round, and `rest` the others.
pub record IsFirst (h : Heap) (req : ResourceRequirements) (clock : ℕ → Time) (i : ℕ)
    (xs : List Ref) (a : Ref) (rest : List Ref) : Type 0 where
  pub before : List Ref
  pub after : List Ref
  pub split : xs ≡ before ++ a ∷ after
  pub others : rest ≡ before ++ after
  pub passes : is_eligible (h a) req (clock (i + length before)) ≡ true
  pub skipped : NoneEligible h req clock i before

module _ (h : Heap) (req : ResourceRequirements) (clock : ℕ → Time) where
  pub scan_cases :
      (i : ℕ) (xs : List Ref)
      → ((scan h req clock i xs ≡ none) × NoneEligible h req clock i xs)
        ⊎ ((a : Ref) × (rest : List Ref) × (scan h req clock i xs ≡ some (a, rest))
            × IsFirst h req clock i xs a rest)
  unfolding scan
  scan_cases i [] = inl (refl, tt)
  scan_cases i (x ∷ xs) = elim (Bool-cases (is_eligible (h x) req (clock i))) [
    | inl e ↦ inr (
      x,
      xs,
      rw e,
      record {
        before = [];
        after = xs;
        split = refl;
        others = refl;
        passes = rw add-zero e;
        skipped = tt;
      },
    )
    | inr e ↦ elim (scan_cases (suc i) xs) [
      | inl (q, none_passes) ↦ inl (rw (e, q), (e, none_passes))
      | inr (a, rest, q, first) ↦ inr (
        a,
        x ∷ rest,
        rw (e, q),
        record {
          before = x ∷ first.before;
          after = first.after;
          split = ap (◌∷◌ x) first.split;
          others = ap (◌∷◌ x) first.others;
          passes = rw (add-suc, ← suc-add) first.passes;
          skipped = (e, first.skipped);
        },
      )
    ]
  ]

-- A call that finds nothing changes nothing; another takes the first entry that passes, out of the
-- slice, and writes the claim into its task and no other.
pub dequeue_lem :
    (q : InMemoryTaskQueue) (worker : String) (req : ResourceRequirements) (clock : ℕ → Time)
    (now : Time)
    → ((dequeue q worker req clock now ≡ (q, none)) × NoneEligible q.heap req clock 0 q.queue)
      ⊎ ((a : Ref) × (rest : List Ref) × (dequeue q worker req clock now ≡ (
        record q { heap = update q.heap a (claim (q.heap a) worker now); queue = rest },
        some a,
      ))
          × IsFirst q.heap req clock 0 q.queue a rest)
unfolding dequeue
dequeue_lem q worker req clock now = elim (scan_cases q.heap req clock 0 q.queue) [
  | inl (e, none_passes) ↦ inl (rw (e, dequeue), none_passes)
  | inr (a, rest, e, first) ↦ inr (a, rest, rw (e, dequeue), first)
]

running-not_eligible :
    (t : BackgroundTask) (worker : String) (now : Time) (req : ResourceRequirements) (later : Time)
    → is_eligible (claim t worker now) req later ≡ false
unfolding is_eligible
running-not_eligible t worker now req later = refl

-- Whatever Dequeue returns was eligible.
dequeue-eligible :
    (q : InMemoryTaskQueue) (worker : String) (req : ResourceRequirements) (clock : ℕ → Time)
    (now : Time) {r : InMemoryTaskQueue} {a : Ref}
    → dequeue q worker req clock now ≡ (r, some a)
    → (i : ℕ) × (is_eligible (q.heap a) req (clock i) ≡ true)
      × (r.heap ≡ update q.heap a (claim (q.heap a) worker now))
dequeue-eligible q worker req clock now {r} {a} h = elim (dequeue_lem q worker req clock now) [
  | inl (e, _) ↦ cc
  | inr (b, rest, e, first) ↦
      let same : b ≡ a = cc in
      (
        0 + length first.before,
        subst (λ c. is_eligible (q.heap c) req (clock (0 + length first.before)) ≡ true) same
            first.passes,
        subst (λ c. r.heap ≡ update q.heap c (claim (q.heap c) worker now)) same (cc),
      )
]

-- A task that was just claimed is not claimed by the next call, by whichever worker and with
-- whatever requirements it is made.
pub dequeue_exclusive :
    (q : InMemoryTaskQueue) (w1 w2 : String) (req1 req2 : ResourceRequirements)
    (clock1 clock2 : ℕ → Time) (now1 now2 : Time) {r s : InMemoryTaskQueue} {a b : Ref}
    → dequeue q w1 req1 clock1 now1 ≡ (r, some a)
    → dequeue r w2 req2 clock2 now2 ≡ (s, some b)
    → a ≢ b
dequeue_exclusive q w1 w2 req1 req2 clock1 clock2 now1 now2 {r} {s} {a} {b} h k e =
    let (i, _, heap_r) = dequeue-eligible q w1 req1 clock1 now1 h in
    let (j, passes, _) = dequeue-eligible r w2 req2 clock2 now2 k in
    let passes_a : is_eligible (update q.heap a (claim (q.heap a) w1 now1) a) req2 (clock2 j)
        ≡ true =
      subst (λ f. is_eligible (f a) req2 (clock2 j) ≡ true) heap_r
        (subst (λ c. is_eligible (r.heap c) req2 (clock2 j) ≡ true) (sym e) passes) in
    claimed_twice (clock2 j) passes_a (running-not_eligible (q.heap a) w1 now1 req2 (clock2 j))
  where
    claimed_twice :
        (t : Time)
        → is_eligible (update q.heap a (claim (q.heap a) w1 now1) a) req2 t ≡ true
        → is_eligible (claim (q.heap a) w1 now1) req2 t ≡ false
        → ⊥
    claimed_twice t p n = ground arith

module _ (m : Models) where
  -- In a slice in order, no entry that passes at the same instant goes before the first that does.
  first_is_best :
      (h : Heap) (req : ResourceRequirements) (t : Time) (a : Ref) (before after : List Ref)
      → (i : ℕ) → IsSorted m h (before ++ a ∷ after)
      → NoneEligible h req (λ _. t) i before
      → All
          (λ b. (is_eligible (h b) req t ≡ false) ⊎ (swap_refs m h a b ≡ false))
          (before ++ a ∷ after)
  first_is_best h req t a [] after i s skipped = (
    inr (irrefl (swap_refs m h) (swap_refs-IsStrictWeak m h) a),
    All-imp (λ b. swap_refs m h a b ≡ false) _ (λ b e. inr e) after s.0,
  )
  first_is_best h req t a (b ∷ before) after i s skipped =
      (inl skipped.0, first_is_best h req t a before after (suc i) s.1 skipped.1)

  -- Dequeue serves the queue in order: if the slice is in order and the clock stands still during
  -- the call, every entry of the slice fails the tests or does not go before the task returned.
  pub dequeue_serves_best :
      (q : InMemoryTaskQueue) (worker : String) (req : ResourceRequirements) (t now : Time)
      {r : InMemoryTaskQueue} {a : Ref}
      → IsSorted m q.heap q.queue
      → dequeue q worker req (λ _. t) now ≡ (r, some a)
      → All (λ b. (is_eligible (q.heap b) req t ≡ false) ⊎ (swap_refs m q.heap a b ≡ false)) q.queue
  dequeue_serves_best q worker req t now {r} {a} s h =
      elim (dequeue_lem q worker req (λ _. t) now) [
        | inl (e, _) ↦ cc
        | inr (b, rest, e, first) ↦
            let same : b ≡ a = cc in
            let s' = subst (IsSorted m q.heap) first.split s in
            let best = first_is_best q.heap req t b first.before first.after 0 s' first.skipped in
            subst
              (λ c.
                All (λ x. (is_eligible (q.heap x) req t ≡ false) ⊎ (swap_refs m q.heap c x ≡ false))
                  q.queue)
              same (subst (All _) (sym first.split) best)
      ]
