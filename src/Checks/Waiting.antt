-- ===== src/Checks/Waiting.antt =====
-- WaitForCompletion: runs, and the theorems at concrete inputs.
use mathlib.Core.List.{Mem, mem-cons}
use mathlib.Core.Logic.Or
use background_tasks.Base.{
  ◌≡◌, ◌≢◌, ◌<◌, lookup, String, refl, pos, true, none, some, List, [], ◌∷◌, ◌++◌, map, ℕ, zero,
  suc, Duration, arith, length, get_elem?,
}
use background_tasks.Task.{BackgroundTask, TaskStatus, TaskPriority}
use background_tasks.Pool.Wait.{
  Poll, fetched, fetched_nil, fetch_failed, deadline, cancelled, wait_for_completion, wait_loop,
  task_failed, next_interval, returned, panicked, timeout_waiting, context_cancelled, get_failed,
  OutputOutcome, out_returned, task_output_not_available, wait_for_completion_with_output,
  initial_interval,
}
use background_tasks.Pool.Wait.Laws.{AllOpen, IsUnderway, has_completed, wait_ends, wait_success}
use background_tasks.Pool.WaitMany.{WaitResult, Arrivals, sent, wait_for_multiple}
use background_tasks.Pool.WaitMany.Laws.{IsSchedule, AllEnd, Sends, wait_for_multiple_lem}
use background_tasks.Checks.Samples.{sample_floats, sample_task}

abbrev in_state : TaskStatus → ℕ → BackgroundTask
in_state s p = record (sample_task "t1" TaskPriority.normal) { status = s; progress = p }

abbrev running_twice : List BackgroundTask
running_twice = in_state TaskStatus.running 10 ∷ in_state TaskStatus.running 20 ∷ []

abbrev done : BackgroundTask
done = in_state TaskStatus.completed 100

abbrev polls : List Poll
polls = map fetched running_twice ++ fetched done ∷ []

run_intervals :
    (wait_for_completion sample_floats true "t1" (pos 5) 1 polls).intervals
    ≡ 100000000 ∷ 150000000 ∷ 225000000 ∷ []
unfolding wait_for_completion wait_loop next_interval
run_intervals = refl

running-IsUnderway : IsUnderway TaskStatus.running
running-IsUnderway = (λ e. cc, λ e. cc, λ e. cc, λ e. cc)

wait_ends_example :
    ((wait_loop sample_floats true "t1"
        (pos 5)
        initial_interval
        1
        (map fetched running_twice ++ fetched done ∷ [])).outcome
      ≡ returned (some done) none)
    × ((wait_loop sample_floats true "t1"
          (pos 5)
          initial_interval
          1
          (map fetched running_twice ++ deadline ∷ [])).outcome
        ≡ returned none (some (timeout_waiting "t1" (pos 5))))
    × ((wait_loop sample_floats true "t1"
          (pos 5)
          initial_interval
          1
          (map fetched running_twice ++ cancelled ∷ [])).outcome
        ≡ returned none (some context_cancelled))
    × ((wait_loop sample_floats true "t1"
          (pos 5)
          initial_interval
          1
          (map fetched running_twice ++ fetch_failed "no row" ∷ [])).outcome
        ≡ returned none (some (get_failed "t1" "no row")))
    × ((wait_loop sample_floats true "t1"
          (pos 5)
          initial_interval
          1
          (map fetched running_twice ++ fetched_nil ∷ [])).outcome
        ≡ panicked)
wait_ends_example =
    wait_ends sample_floats true "t1" (pos 5) initial_interval 1 running_twice [] done none "no row"
      (running-IsUnderway, (running-IsUnderway, tt)) (has_completed refl)

polls_succeed :
    (wait_for_completion sample_floats true "t1" (pos 5) 1 polls).outcome
    ≡ returned (some done) none
unfolding wait_for_completion wait_loop next_interval
polls_succeed = refl

wait_success_example :
    (done.status ≡ TaskStatus.completed)
    × (before : List BackgroundTask) × (rest : List Poll) × (polls
        ≡ map fetched before ++ fetched done ∷ rest)
    × AllOpen before
wait_success_example = wait_success sample_floats true "t1" (pos 5) 1 polls done polls_succeed

polls_output :
    wait_for_completion_with_output sample_floats "t1" (pos 5) 1 polls
    ≡ out_returned (some done) none (some task_output_not_available)
unfolding wait_for_completion_with_output wait_for_completion wait_loop next_interval
polls_output = refl

-- The first goroutine waits for three, the second for seven nanoseconds, and the second sends first.
abbrev two_waits : ℕ → Duration × OutputOutcome
two_waits zero = (pos 3, out_returned (some done) none (some task_output_not_available))
two_waits (suc n) = (pos 7, out_returned none none (some (task_failed "x")))

abbrev two_ids : List String
two_ids = "a" ∷ "b" ∷ []

second_first : IsSchedule (1 ∷ 0 ∷ []) (length two_ids)
second_first = record { once = refl; bounded = (omega arith, (omega arith, tt)); each = each_one }
  where
    each_one : (i : ℕ) → i < 2 → Mem i (1 ∷ 0 ∷ [])
    each_one zero h = mem-cons.1 (Or.inr (mem-cons.1 (Or.inl refl)))
    each_one (suc zero) h = mem-cons.1 (Or.inl refl)
    each_one (suc (suc i)) h = absurd (omega arith)

both_end : AllEnd two_ids two_waits
unfolding sent
both_end zero h = (_, refl)
both_end (suc i) h = (_, refl)

wait_for_multiple_lem_example :
    (results : Arrivals) × (wait_for_multiple two_ids two_waits (1 ∷ 0 ∷ []) ≡ some results)
    × ((id : String) → ((i : ℕ) → get_elem? two_ids i ≢ some id) → lookup id results ≡ none)
    × ((id : String) (k : ℕ)
        → get_elem? two_ids k ≡ some id
        → (r : WaitResult) × (lookup id results ≡ some r)
          × ((i : ℕ) × Sends two_ids two_waits i id r)
          × (((i : ℕ) → get_elem? two_ids i ≡ some id → i ≡ k) → Sends two_ids two_waits k id r))
wait_for_multiple_lem_example =
    wait_for_multiple_lem two_ids two_waits (1 ∷ 0 ∷ []) second_first both_end
