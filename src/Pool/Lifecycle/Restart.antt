-- ===== src/Pool/Lifecycle/Restart.antt =====
-- A pool that is started again after a Stop (worker_pool.go).
use background_tasks.Base.{ℕ, ◌+◌, ◌≡◌, ◌≤◌, refl, Bool, true, false, none, List, [], ◌∷◌, arith}
use background_tasks.Pool.Lifecycle.{
  Stage, dequeuing, executing, Ticker, LoopStage, AdaptiveWorkerPool, new_adaptive_worker_pool,
  start_pool, StageTurn, WorkerThread, count_in, worker_launched, see_cancel, see_stop, idle_timer,
  poll, prompt_cancel, prompt_stop, still_wanted, can_leave, must_stay, idle_return, get_task,
  no_task, slept, sleep_cancelled, sleep_stopped, task_done, decrement, leave_map, LoopTurn, tick,
  scale_round, other_round, round_done, Internal, worker_turn, worker_done, loop_turn, loop_spawns,
  loop_done, External, scale_spawns, signals_worker, start_called, start_spawns, start_spawned,
  start_launches, start_returns, stop_called, stop_signalled, stop_graceful, stop_times_out, Later,
  now, inside, outside,
}
use background_tasks.Base.Places.{total, total-Replace, total-Remove}
use background_tasks.Pool.Lifecycle.Counts.{Later-waited, is_launched, running_workers}

-- 1 for a worker that asks the queue for a task, or has one.
abbrev pub stage_engaged : Stage → ℕ
stage_engaged dequeuing = 1
stage_engaged executing = 1
stage_engaged _ = 0

-- 1 for a loop that is in the call of its round.
abbrev pub loop_engaged : LoopStage → ℕ
loop_engaged (LoopStage.busy _) = 1
loop_engaged _ = 0

-- The workers that ask for a task or have one, and the loops in a round.
abbrev pub engaged : AdaptiveWorkerPool → ℕ
engaged s = total (λ w. stage_engaged w.stage) s.workers + total (λ l. loop_engaged l.stage) s.loops

StageTurn-engaged :
    {min active n : ℕ} {c d : Bool} {a b : Stage}
    → c ≡ true
    → StageTurn min active c d a b n
    → stage_engaged b ≤ stage_engaged a
StageTurn-engaged h count_in = omega arith
StageTurn-engaged h (poll p q) = cc
StageTurn-engaged h (still_wanted p q) = omega arith
StageTurn-engaged h (see_cancel p) = omega arith
StageTurn-engaged h (see_stop p) = omega arith
StageTurn-engaged h idle_timer = omega arith
StageTurn-engaged h (prompt_cancel p) = omega arith
StageTurn-engaged h (prompt_stop p) = omega arith
StageTurn-engaged h (can_leave p) = omega arith
StageTurn-engaged h (must_stay p) = omega arith
StageTurn-engaged h idle_return = omega arith
StageTurn-engaged h get_task = omega arith
StageTurn-engaged h no_task = omega arith
StageTurn-engaged h slept = omega arith
StageTurn-engaged h (sleep_cancelled p) = omega arith
StageTurn-engaged h (sleep_stopped p) = omega arith
StageTurn-engaged h task_done = omega arith
StageTurn-engaged h decrement = omega arith
StageTurn-engaged h leave_map = omega arith

LoopTurn-engaged :
    {c : Bool} {k : Ticker} {a b : LoopStage}
    → c ≡ true
    → LoopTurn c k a b
    → loop_engaged b ≤ loop_engaged a
LoopTurn-engaged h (LoopTurn.see_cancel p) = omega arith
LoopTurn-engaged h tick = omega arith
LoopTurn-engaged h (LoopTurn.prompt_cancel p) = omega arith
LoopTurn-engaged h (scale_round n p) = cc
LoopTurn-engaged h (other_round p z) = cc
LoopTurn-engaged h (round_done z) = omega arith

-- Behind `s` the context stays cancelled, and no more goroutines are engaged.
abbrev Quieter : AdaptiveWorkerPool → AdaptiveWorkerPool → Type 0
Quieter s t = (t.cancelled ≡ true) × (engaged t ≤ engaged s)

Internal-Quieter : {s t : AdaptiveWorkerPool} → s.cancelled ≡ true → Internal s t → Quieter s t
Internal-Quieter h (worker_turn turn r) =
    (h, omega (arith, StageTurn-engaged h turn, total-Replace (λ w. stage_engaged w.stage) r))
Internal-Quieter h (worker_launched r) =
    (h, omega (arith, total-Replace (λ w. stage_engaged w.stage) r))
Internal-Quieter h (worker_done r) = (h, omega (arith, total-Remove (λ w. stage_engaged w.stage) r))
Internal-Quieter h (loop_turn turn r) =
    (h, omega (arith, LoopTurn-engaged h turn, total-Replace (λ l. loop_engaged l.stage) r))
Internal-Quieter h (loop_spawns id u r) =
    (h, omega (arith, total-Replace (λ l. loop_engaged l.stage) r))
Internal-Quieter h (loop_done r) = (h, omega (arith, total-Remove (λ l. loop_engaged l.stage) r))

start-Quieter : (s : AdaptiveWorkerPool) → s.cancelled ≡ true → Quieter s (start_pool s).0
unfolding start_pool
start-Quieter s h = ground arith

External-Quieter : {s t : AdaptiveWorkerPool} → s.cancelled ≡ true → External s t → Quieter s t
External-Quieter {s} h start_called = start-Quieter s h
External-Quieter h (scale_spawns id u) = (h, omega arith)
External-Quieter h (signals_worker r) =
    (h, omega (arith, total-Replace (λ w. stage_engaged w.stage) r))
External-Quieter h (start_spawns id u r) = (h, omega arith)
External-Quieter h (start_spawned z r) = (h, omega arith)
External-Quieter h (start_launches r) = (h, omega arith)
External-Quieter h (start_returns r) = (h, omega arith)
External-Quieter h stop_called = (refl, omega arith)
External-Quieter h (stop_signalled g r) = (h, omega arith)
External-Quieter h (stop_graceful z r) = (h, omega arith)
External-Quieter h (stop_times_out r) = (h, omega arith)

Later-Quieter : {s t : AdaptiveWorkerPool} → s.cancelled ≡ true → Later s t → Quieter s t
Later-Quieter h now = (h, omega arith)
Later-Quieter h (inside l st) =
    let (c, e) = Later-Quieter h l in let (c', e') = Internal-Quieter c st in (c', omega arith)
Later-Quieter h (outside l st) =
    let (c, e) = Later-Quieter h l in let (c', e') = External-Quieter c st in (c', omega arith)

engaged_runs : (a : Stage) → stage_engaged a ≤ is_launched a
engaged_runs a = ground arith

engaged_run : (ws : List WorkerThread) → total (λ w. stage_engaged w.stage) ws ≤ running_workers ws
engaged_run [] = omega arith
engaged_run (w ∷ ws) = omega (arith, engaged_runs w.stage, engaged_run ws)

idle_pool :
    (s : AdaptiveWorkerPool) → (running_workers s.workers ≡ 0) × (s.loops ≡ []) → engaged s ≡ 0
idle_pool s (p, q) =
    let none_engaged : total (λ w. stage_engaged w.stage) s.workers ≡ 0 =
      omega (arith, engaged_run s.workers) in
    rw (none_engaged, q)

accepted : (s : AdaptiveWorkerPool) → s.started ≡ false → (start_pool s).1 ≡ none
unfolding start_pool
accepted s h = rw h

-- A pool does not come back from a Stop that was graceful. Start takes it up again, since Stop has
-- reset `started`; but whatever is called from then on and whatever the goroutines do, no worker
-- asks the queue for a task and no loop makes a round, for the context of the pool stays
-- cancelled.
pub restart_is_dead :
    {min : ℕ} {s t : AdaptiveWorkerPool}
    → Later (new_adaptive_worker_pool min) s
    → s.cancelled ≡ true
    → s.started ≡ false
    → s.wait_group ≡ 0
    → Later s t
    → ((start_pool s).1 ≡ none) × (t.cancelled ≡ true) × (engaged t ≡ 0)
restart_is_dead {s = s} l c st z more =
    let (c', e) = Later-Quieter c more in
    let empty = idle_pool s ((Later-waited l).1.0 z) in (accepted s st, c', omega arith)
