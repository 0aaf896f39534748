-- ===== src/Pool/Lifecycle/Counts.antt =====
-- The WaitGroup of the pool under every interleaving (worker_pool.go).
use background_tasks.Base.{Bool, ℕ, ◌+◌, ◌≡◌, refl, sym, List, [], ◌∷◌, arith, length, ◌∙◌, ◌↔◌}
use background_tasks.Pool.Lifecycle.{
  Stage, entered, enrolled, WorkerThread, StageTurn, count_in, see_cancel, see_stop, idle_timer,
  poll, prompt_cancel, prompt_stop, still_wanted, can_leave, must_stay, idle_return, get_task,
  no_task, slept, sleep_cancelled, sleep_stopped, task_done, decrement, leave_map, worker_launched,
  AdaptiveWorkerPool, new_adaptive_worker_pool, start_pool, Internal, worker_turn, worker_done,
  loop_turn, loop_spawns, loop_done, External, scale_spawns, signals_worker, start_called,
  start_spawns, start_spawned, start_launches, start_returns, stop_called, stop_signalled,
  stop_graceful, stop_times_out, Later, now, inside, outside,
}
use background_tasks.Base.Places.{length-Replace, length-Remove, total, total-Replace, total-Remove}

-- 1 for a worker whose goroutine has been launched.
abbrev pub is_launched : Stage → ℕ
is_launched entered = 0
is_launched enrolled = 0
is_launched _ = 1

-- How many goroutines of workers run.
abbrev pub running_workers : List WorkerThread → ℕ
running_workers = total λ w. is_launched w.stage

StageTurn-launched :
    {min active n : ℕ} {c d : Bool} {a b : Stage}
    → StageTurn min active c d a b n
    → is_launched b ≡ is_launched a
StageTurn-launched count_in = refl
StageTurn-launched (see_cancel _) = refl
StageTurn-launched (see_stop _) = refl
StageTurn-launched idle_timer = refl
StageTurn-launched (poll _ _) = refl
StageTurn-launched (prompt_cancel _) = refl
StageTurn-launched (prompt_stop _) = refl
StageTurn-launched (still_wanted _ _) = refl
StageTurn-launched (can_leave _) = refl
StageTurn-launched (must_stay _) = refl
StageTurn-launched idle_return = refl
StageTurn-launched get_task = refl
StageTurn-launched no_task = refl
StageTurn-launched slept = refl
StageTurn-launched (sleep_cancelled _) = refl
StageTurn-launched (sleep_stopped _) = refl
StageTurn-launched task_done = refl
StageTurn-launched decrement = refl
StageTurn-launched leave_map = refl

-- Every goroutine that Add has counted and Done has not.
abbrev pub AllWaitedFor : AdaptiveWorkerPool → Type 0
AllWaitedFor s = s.wait_group ≡ running_workers s.workers + length s.loops

Internal-AllWaitedFor : {s t : AdaptiveWorkerPool} → Internal s t → AllWaitedFor s → AllWaitedFor t
Internal-AllWaitedFor (worker_turn turn r) e =
    omega (arith, StageTurn-launched turn, total-Replace (λ w. is_launched w.stage) r)
Internal-AllWaitedFor (worker_launched r) e =
    omega (arith, total-Replace (λ w. is_launched w.stage) r)
Internal-AllWaitedFor (worker_done r) e = omega (arith, total-Remove (λ w. is_launched w.stage) r)
Internal-AllWaitedFor (loop_turn turn r) e = omega (arith, length-Replace r)
Internal-AllWaitedFor (loop_spawns id u r) e = omega (arith, length-Replace r)
Internal-AllWaitedFor (loop_done r) e = omega (arith, length-Remove r)

start-AllWaitedFor : (s : AdaptiveWorkerPool) → AllWaitedFor s → AllWaitedFor (start_pool s).0
unfolding start_pool
start-AllWaitedFor s e = ground arith

External-AllWaitedFor : {s t : AdaptiveWorkerPool} → External s t → AllWaitedFor s → AllWaitedFor t
External-AllWaitedFor {s} start_called e = start-AllWaitedFor s e
External-AllWaitedFor (scale_spawns id u) e = omega arith
External-AllWaitedFor (signals_worker r) e =
    omega (arith, total-Replace (λ w. is_launched w.stage) r)
External-AllWaitedFor (start_spawns id u r) e = omega arith
External-AllWaitedFor (start_spawned z r) e = e
External-AllWaitedFor (start_launches r) e = omega arith
External-AllWaitedFor (start_returns r) e = e
External-AllWaitedFor stop_called e = e
External-AllWaitedFor (stop_signalled h r) e = e
External-AllWaitedFor (stop_graceful z r) e = e
External-AllWaitedFor (stop_times_out r) e = e

pub Later-AllWaitedFor : {s t : AdaptiveWorkerPool} → Later s t → AllWaitedFor s → AllWaitedFor t
Later-AllWaitedFor now e = e
Later-AllWaitedFor (inside l st) e = Internal-AllWaitedFor st (Later-AllWaitedFor l e)
Later-AllWaitedFor (outside l st) e = External-AllWaitedFor st (Later-AllWaitedFor l e)

sum_zero : (a b : ℕ) → 0 ≡ a + b → (a ≡ 0) × (b ≡ 0)
sum_zero a b h = omega arith

no_entries {ℓ} : {A : Type ℓ} (xs : List A) → length xs ≡ 0 → xs ≡ []
no_entries [] h = refl
no_entries (x ∷ xs) h = absurd (omega arith)

-- After any history of a pool the WaitGroup counts the goroutines that run, workers and loops, so
-- Stop sees it at zero, and answers that it was graceful, only if none runs; a worker in the map whose
-- goroutine is still to be launched does not count.
pub Later-waited :
    {min : ℕ} {s : AdaptiveWorkerPool}
    → Later (new_adaptive_worker_pool min) s
    → (s.wait_group ≡ running_workers s.workers + length s.loops)
      × ((s.wait_group ≡ 0) ↔ ((running_workers s.workers ≡ 0) × (s.loops ≡ [])))
Later-waited {s = s} l =
    let e = Later-AllWaitedFor l refl in
    (
      e,
      (
        λ z.
            let (w, k) = sum_zero (running_workers s.workers) (length s.loops) (sym z ∙ e) in
            (w, no_entries s.loops k),
        λ h. e ∙ none_left h.0 h.1,
      ),
    )
  where
    none_left :
        running_workers s.workers ≡ 0
        → s.loops ≡ []
        → running_workers s.workers + length s.loops ≡ 0
    none_left p q = rw (p, q)
