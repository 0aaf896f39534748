-- ===== src/Pool/Lifecycle/Stop.antt =====
-- The end of the goroutines behind a Stop (worker_pool.go).
use background_tasks.Base.{
  ℕ, zero, suc, ◌+◌, ◌*◌, ◌≡◌, ◌≤◌, ◌<◌, refl, sym, Bool, true, List, [], ◌∷◌, String, arith,
  length, ◌⊎◌, inl, inr, dec_lt, subst, ap,
}
use background_tasks.Pool.Lifecycle.{
  Stage, entered, enrolled, count_in, worker_launched, selecting, timed_out, may_leave, idle_check,
  dequeuing, sleeping, executing, leaving, uncounted, removed, WorkerThread, Ticker, LoopStage,
  waiting, ticked, ending, busy, LoopThread, AdaptiveWorkerPool, new_adaptive_worker_pool,
  StageTurn, see_cancel, see_stop, idle_timer, poll, prompt_cancel, prompt_stop, still_wanted,
  can_leave, must_stay, idle_return, get_task, no_task, slept, sleep_cancelled, sleep_stopped,
  task_done, decrement, leave_map, LoopTurn, tick, scale_round, other_round, round_done, Internal,
  worker_turn, worker_done, loop_turn, loop_spawns, loop_done, Later, inside,
}
use background_tasks.Base.Places.{Replace, here, Remove, first, total, total-Replace, total-Remove}
use background_tasks.Pool.Lifecycle.Ids.{new_id}
use background_tasks.Pool.Lifecycle.Counts.{AllWaitedFor, Later-AllWaitedFor, running_workers}

-- How many turns a goroutine has left at most once the context is cancelled.
abbrev pub stage_work : Stage → ℕ
stage_work entered = 7
stage_work enrolled = 6
stage_work selecting = 5
stage_work timed_out = 4
stage_work may_leave = 6
stage_work idle_check = 4
stage_work dequeuing = 7
stage_work sleeping = 6
stage_work executing = 6
stage_work leaving = 3
stage_work uncounted = 2
stage_work removed = 1

abbrev pub worker_work : WorkerThread → ℕ
worker_work w = stage_work w.stage

-- A worker that is still to be spawned takes one turn of the loop, and its own.
abbrev pub loop_stage_work : LoopStage → ℕ
loop_stage_work waiting = 3
loop_stage_work ticked = 2
loop_stage_work ending = 1
loop_stage_work (busy n) = 4 + 8 * n

abbrev pub loop_work : LoopThread → ℕ
loop_work l = loop_stage_work l.stage

abbrev pub work : AdaptiveWorkerPool → ℕ
work s = total worker_work s.workers + total loop_work s.loops

-- `Inside n s t`: the goroutines lead from `s` to `t` in `n` steps.
pub data Inside (s : AdaptiveWorkerPool) : ℕ → AdaptiveWorkerPool → Type 0 where
  still : Inside s 0 s
  onward : {n : ℕ} {t u : AdaptiveWorkerPool} → Inside s n t → Internal t u → Inside s (suc n) u

StageTurn-work :
    {min active n : ℕ} {c d : Bool} {a b : Stage}
    → c ≡ true
    → StageTurn min active c d a b n
    → stage_work b < stage_work a
StageTurn-work h count_in = omega arith
StageTurn-work h (poll p q) = cc
StageTurn-work h (still_wanted p q) = cc
StageTurn-work h (see_cancel p) = omega arith
StageTurn-work h (see_stop p) = omega arith
StageTurn-work h idle_timer = omega arith
StageTurn-work h (prompt_cancel p) = omega arith
StageTurn-work h (prompt_stop p) = omega arith
StageTurn-work h (can_leave p) = omega arith
StageTurn-work h (must_stay p) = omega arith
StageTurn-work h idle_return = omega arith
StageTurn-work h get_task = omega arith
StageTurn-work h no_task = omega arith
StageTurn-work h slept = omega arith
StageTurn-work h (sleep_cancelled p) = omega arith
StageTurn-work h (sleep_stopped p) = omega arith
StageTurn-work h task_done = omega arith
StageTurn-work h decrement = omega arith
StageTurn-work h leave_map = omega arith

LoopTurn-work :
    {c : Bool} {k : Ticker} {a b : LoopStage}
    → c ≡ true
    → LoopTurn c k a b
    → loop_stage_work b < loop_stage_work a
LoopTurn-work h (LoopTurn.see_cancel p) = omega arith
LoopTurn-work h tick = omega arith
LoopTurn-work h (LoopTurn.prompt_cancel p) = omega arith
LoopTurn-work h (scale_round n p) = cc
LoopTurn-work h (other_round p z) = cc
LoopTurn-work h (round_done z) = omega arith

Internal-work :
    {s t : AdaptiveWorkerPool}
    → s.cancelled ≡ true
    → Internal s t
    → (t.cancelled ≡ true) × (work t < work s)
Internal-work h (worker_turn turn r) =
    (h, omega (arith, StageTurn-work h turn, total-Replace worker_work r))
Internal-work h (worker_launched r) = (h, omega (arith, total-Replace worker_work r))
Internal-work h (worker_done r) = (h, omega (arith, total-Remove worker_work r))
Internal-work h (loop_turn turn r) =
    (h, omega (arith, LoopTurn-work h turn, total-Replace loop_work r))
Internal-work h (loop_spawns id u r) = (h, omega (arith, total-Replace loop_work r))
Internal-work h (loop_done r) = (h, omega (arith, total-Remove loop_work r))

Inside-work :
    {s t : AdaptiveWorkerPool} {n : ℕ}
    → s.cancelled ≡ true
    → Inside s n t
    → (t.cancelled ≡ true) × (n + work t ≤ work s)
Inside-work h still = (h, omega arith)
Inside-work h (onward i st) =
    let (c, b) = Inside-work h i in let (c', less) = Internal-work c st in (c', omega arith)

Inside-Later : {r s t : AdaptiveWorkerPool} {n : ℕ} → Later r s → Inside s n t → Later r t
Inside-Later l still = l
Inside-Later l (onward i st) = inside (Inside-Later l i) st

-- Some goroutine of a pool that is cancelled can go on.
abbrev pub CanMove : AdaptiveWorkerPool → Type 0
CanMove s = (t : AdaptiveWorkerPool) × Internal s t

-- A worker with a turn, in a pool whose map begins with it.
turn_first :
    (s : AdaptiveWorkerPool) (id : String) (d : Bool) (a b : Stage) (n : ℕ) (ws : List WorkerThread)
    → s.workers ≡ record { id = id; stage = a; stop_done = d } ∷ ws
    → StageTurn s.min_workers s.active_count s.cancelled d a b n
    → CanMove s
turn_first s id d a b n ws e turn = (
  _,
  worker_turn turn (
      subst
        (λ xs.
          Replace (record { id = id; stage = a; stop_done = d })
            (record { id = id; stage = b; stop_done = d }) xs
            (record { id = id; stage = b; stop_done = d } ∷ ws))
        (sym e) here),
)

worker_moves :
    (s : AdaptiveWorkerPool) (w : WorkerThread) (ws : List WorkerThread)
    → s.cancelled ≡ true
    → s.workers ≡ w ∷ ws
    → CanMove s
worker_moves s w ws c e = go w.id w.stop_done w.stage e
  where
    go :
        (id : String) (d : Bool) (a : Stage)
        → s.workers ≡ record { id = id; stage = a; stop_done = d } ∷ ws
        → CanMove s
    go id d entered e = turn_first s id d _ _ _ ws e count_in
    go id d enrolled e = (
      _,
      worker_launched (
          subst
            (λ xs.
              Replace (record { id = id; stage = enrolled; stop_done = d })
                (record { id = id; stage = selecting; stop_done = d }) xs
                (record { id = id; stage = selecting; stop_done = d } ∷ ws))
            (sym e) here),
    )
    go id d selecting e = turn_first s id d _ _ _ ws e (see_cancel c)
    go id d timed_out e = turn_first s id d _ _ _ ws e (prompt_cancel c)
    go id d may_leave e = elim (dec_lt s.min_workers s.active_count) [
      | yes p ↦ turn_first s id d _ _ _ ws e (can_leave p)
      | no p ↦ turn_first s id d _ _ _ ws e (must_stay (omega arith))
    ]
    go id d idle_check e = turn_first s id d _ _ _ ws e idle_return
    go id d dequeuing e = turn_first s id d _ _ _ ws e no_task
    go id d sleeping e = turn_first s id d _ _ _ ws e slept
    go id d executing e = turn_first s id d _ _ _ ws e task_done
    go id d leaving e = turn_first s id d _ _ _ ws e decrement
    go id d uncounted e = turn_first s id d _ _ _ ws e leave_map
    go id d removed e = (
      _,
      worker_done (
          subst (λ xs. Remove (record { id = id; stage = removed; stop_done = d }) xs ws) (sym e)
            first),
    )

loop_first :
    (s : AdaptiveWorkerPool) (k : Ticker) (a b : LoopStage) (ls : List LoopThread)
    → s.loops ≡ record { ticker = k; stage = a } ∷ ls
    → LoopTurn s.cancelled k a b
    → CanMove s
loop_first s k a b ls e turn = (
  _,
  loop_turn turn (
      subst
        (λ xs.
          Replace (record { ticker = k; stage = a }) (record { ticker = k; stage = b }) xs
            (record { ticker = k; stage = b } ∷ ls))
        (sym e) here),
)

loop_moves :
    (s : AdaptiveWorkerPool) (l : LoopThread) (ls : List LoopThread)
    → s.cancelled ≡ true
    → s.loops ≡ l ∷ ls
    → CanMove s
loop_moves s l ls c e = go l.ticker l.stage e
  where
    go : (k : Ticker) (a : LoopStage) → s.loops ≡ record { ticker = k; stage = a } ∷ ls → CanMove s
    go k waiting e = loop_first s k _ _ ls e (LoopTurn.see_cancel c)
    go k ticked e = loop_first s k _ _ ls e (LoopTurn.prompt_cancel c)
    go k ending e = (
      _,
      loop_done (subst (λ xs. Remove (record { ticker = k; stage = ending }) xs ls) (sym e) first),
    )
    go k (busy zero) e = loop_first s k _ _ ls e (round_done refl)
    go k (busy (suc n)) e = (
      _,
      loop_spawns (new_id s.workers).0 (new_id s.workers).1 (
          subst
            (λ xs.
              Replace (record { ticker = k; stage = busy (suc n) })
                (record { ticker = k; stage = busy n }) xs
                (record { ticker = k; stage = busy n } ∷ ls))
            (sym e) here),
    )

moves_or_done :
    (s : AdaptiveWorkerPool) → s.cancelled ≡ true → AllWaitedFor s → (s.wait_group ≡ 0) ⊎ CanMove s
moves_or_done s c e = go s.workers s.loops refl refl
  where
    go :
        (ws : List WorkerThread) (ls : List LoopThread)
        → s.workers ≡ ws
        → s.loops ≡ ls
        → (s.wait_group ≡ 0) ⊎ CanMove s
    go (w ∷ ws) ls p q = inr (worker_moves s w ws c p)
    go [] (l ∷ ls) p q = inr (loop_moves s l ls c q)
    go [] [] p q = inl (omega (arith, ap running_workers p, ap length q))

-- Behind a Stop the goroutines of the pool come to an end, tasks that are executed being taken to
-- end: in any state of a pool whose context is cancelled, whatever they do without further calls
-- from outside takes at most `work` steps, and where they cannot go on the WaitGroup is at zero,
-- so Stop ends as graceful unless its grace period is over before.
pub stop_ends :
    {min n : ℕ} {s t : AdaptiveWorkerPool}
    → Later (new_adaptive_worker_pool min) s
    → s.cancelled ≡ true
    → Inside s n t
    → (n ≤ work s) × ((t.wait_group ≡ 0) ⊎ CanMove t)
stop_ends {t = t} l c i =
    let (c', bound) = Inside-work c i in
    (omega arith, moves_or_done t c' (Later-AllWaitedFor (Inside-Later l i) refl))
