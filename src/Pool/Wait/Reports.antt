-- ===== src/Pool/Wait/Reports.antt =====
-- How long WaitForCompletion sleeps between its polls and what it reports (worker_pool.go).
use background_tasks.Base.{
  ℕ, ◌≤◌, ◌≡◌, refl, inl, inr, Bool, true, false, List, [], ◌∷◌, String, Duration, arith,
  if◌then◌else◌, Bool-cases,
}
use background_tasks.Task.{BackgroundTask, Float64}
use background_tasks.Float.{FloatOps}
use background_tasks.Pool.Wait.{
  Poll, deadline, cancelled, fetched_nil, fetch_failed, fetched, WaitRun, is_terminal_status,
  next_interval, initial_interval, max_interval, after_poll, is_news, report, wait_loop,
  wait_for_completion,
}

after_poll_intervals :
    (i : ℕ) (cs : List (Float64 × String)) (r : WaitRun)
    → (after_poll i cs r).intervals ≡ i ∷ r.intervals
after_poll_intervals i [] r = refl
after_poll_intervals i (c ∷ cs) r = refl

-- Each interval lies between `lo` and two seconds, and none is shorter than the one before it.
abbrev pub Growing : ℕ → List ℕ → Type 0
Growing lo [] = Unit
Growing lo (i ∷ is) = (lo ≤ i) × (i ≤ max_interval) × Growing i is

-- Each report differs, by the float test, from the one before it; the first from `last`.
abbrev pub Changing : FloatOps → Float64 → List (Float64 × String) → Type 0
Changing ops last [] = Unit
Changing ops last ((p, msg) ∷ cs) = (ops.eq p last ≡ false) × Changing ops p cs

next_interval_bounds :
    (i : ℕ) → i ≤ max_interval → (i ≤ next_interval i) × (next_interval i ≤ max_interval)
unfolding next_interval
next_interval_bounds i h = ground arith

Growing-mono : (lo hi : ℕ) (is : List ℕ) → lo ≤ hi → Growing hi is → Growing lo is
Growing-mono lo hi [] h g = tt
Growing-mono lo hi (i ∷ is) h (up, top, rest) = (omega arith, top, rest)

news_differs :
    (ops : FloatOps) (callback : Bool) (t : BackgroundTask) (last : Float64)
    → is_news ops callback t last ≡ true
    → ops.eq t.progress last ≡ false
news_differs ops callback t last h = ground arith

module _ (ops : FloatOps) (callback : Bool) (task_id : String) (timeout : Duration) where
  abbrev run_of : ℕ → Float64 → List Poll → WaitRun
  run_of = wait_loop ops callback task_id timeout

  abbrev last_of : BackgroundTask → Float64 → Float64
  last_of t last = if is_news ops callback t last then t.progress else last

  if_run : (P : WaitRun → Type 0) (b : Bool) (x y : WaitRun) → P x → P y → P (if b then x else y)
  if_run P true x y p q = p
  if_run P false x y p q = q

  loop_intervals :
      (i : ℕ) (last : Float64) (polls : List Poll)
      → i ≤ max_interval
      → Growing i (run_of i last polls).intervals
  unfolding wait_loop
  loop_intervals i last [] h = tt
  loop_intervals i last (deadline ∷ polls) h = tt
  loop_intervals i last (cancelled ∷ polls) h = tt
  loop_intervals i last (fetched_nil ∷ polls) h = tt
  loop_intervals i last (fetch_failed e ∷ polls) h = (omega arith, h, tt)
  loop_intervals i last (fetched t ∷ polls) h =
      let (up, top) = next_interval_bounds i h in
      let later = loop_intervals (next_interval i) (last_of t last) polls top in
      rw (after_poll_intervals i (report ops callback t last)) (
        omega arith,
        h,
        if_run (λ r. Growing i r.intervals) (is_terminal_status t.status) _ _ tt
            (Growing-mono i (next_interval i) _ up later),
      )

  -- The sleeps of WaitForCompletion never get shorter, and lie between 100 ms and 2 s.
  pub wait_intervals :
      (minus_one : Float64) (polls : List Poll)
      → Growing initial_interval
          (wait_for_completion ops callback task_id timeout minus_one polls).intervals
  unfolding wait_for_completion
  wait_intervals minus_one polls = loop_intervals initial_interval minus_one polls (omega arith)

  loop_callbacks :
      (i : ℕ) (last : Float64) (polls : List Poll)
      → Changing ops last (run_of i last polls).callbacks
  unfolding wait_loop
  loop_callbacks i last [] = tt
  loop_callbacks i last (deadline ∷ polls) = tt
  loop_callbacks i last (cancelled ∷ polls) = tt
  loop_callbacks i last (fetched_nil ∷ polls) = tt
  loop_callbacks i last (fetch_failed e ∷ polls) = tt
  loop_callbacks i last (fetched t ∷ polls) = elim (Bool-cases (is_news ops callback t last)) [
    | inl e ↦
        let later = loop_callbacks (next_interval i) t.progress polls in
        rw e (
          news_differs ops callback t last e,
          if_run (λ r. Changing ops t.progress r.callbacks) (is_terminal_status t.status) _ _ tt
              later,
        )
    | inr e ↦
        let later = loop_callbacks (next_interval i) last polls in
        rw e
          (if_run (λ r. Changing ops last r.callbacks) (is_terminal_status t.status) _ _ tt later)
  ]

  -- No report of progress repeats the one before it, and the first is not the start value.
  pub wait_callbacks :
      (minus_one : Float64) (polls : List Poll)
      → Changing ops minus_one
          (wait_for_completion ops callback task_id timeout minus_one polls).callbacks
  unfolding wait_for_completion
  wait_callbacks minus_one polls = loop_callbacks initial_interval minus_one polls
