-- ===== src/Pool/Lifecycle.antt =====
-- The life of the pool (worker_pool.go): Start, Stop, spawnWorker, workerLoop and the loops behind
-- the three tickers as interleaved steps over the shared WaitGroup, activeCount, `started` and the
-- context of the pool. In Go's select the default branch is taken only if no other case is ready.
-- spawnWorker fills the map, counts the worker, and launches its goroutine, in three steps; in the
-- model its caller may go on in between, which allows more interleavings than the source. MinWorkers
-- is not negative. Signals to workers may come at any time, as Scale may.
-- Pool/Workers has the map of workers on its own; Lifecycle/View compares the two.
pub mod Ids
pub mod Counts
pub mod View
pub mod Stop
pub mod Restart
use background_tasks.Base.{
  ℕ, suc, ◌+◌, ◌-◌, ◌≡◌, ◌<◌, ◌≤◌, Bool, true, false, Option, none, some, List, [], ◌∷◌, String,
  str_eq, ◌⊎◌, if◌then◌else◌, All,
}
use background_tasks.Base.Places.{Replace, Remove}

-- Where a worker stands. `entered`: it has its entry in the map; `enrolled`: it is counted, and its
-- goroutine is to be launched. `selecting`: at the select of workerLoop. `timed_out`:
-- the idle timer has fired. `may_leave`: before canScaleDown; `idle_check`: it has answered true.
-- `dequeuing`: in the default branch; `sleeping`: in sleepOrCancel; `executing`: in executeTask.
-- `leaving`: at a return. `uncounted`: activeCount is decremented; `removed`: the entry has left
-- the map, and wg.Done is to come.
pub data Stage : Type 0 where
  entered enrolled selecting timed_out may_leave idle_check dequeuing sleeping executing leaving
        uncounted removed :
      Stage

pub record WorkerThread : Type 0 where
  pub id : String
  pub stage : Stage
  pub stop_done : Bool  -- stopChan is closed

pub data Ticker : Type 0 where
  scaling stuck_detection heartbeat : Ticker

-- `waiting`: at the select. `ticked`: the ticker has fired. `busy n`: in the call of the round,
-- which is to spawn n more workers. `ending`: at a return; wg.Done is to come.
pub data LoopStage : Type 0 where
  waiting ticked ending : LoopStage
  busy : ℕ → LoopStage

pub record LoopThread : Type 0 where
  pub ticker : Ticker
  pub stage : LoopStage

-- A call of Start or Stop that has not returned. `spawns n`: Start is to spawn n more workers.
-- `launches l`: it is to start the loops of `l`. `signals`: Stop has cancelled the context.
-- `waits`: it waits for the WaitGroup or the grace period.
pub data Caller : Type 0 where
  spawns : ℕ → Caller
  launches : List Ticker → Caller
  signals waits : Caller

pub record AdaptiveWorkerPool : Type 0 where
  pub min_workers : ℕ
  pub started : Bool
  pub cancelled : Bool
  pub active_count : ℕ
  pub wait_group : ℕ
  pub workers : List WorkerThread
  pub loops : List LoopThread
  pub callers : List Caller

abbrev pub new_adaptive_worker_pool : ℕ → AdaptiveWorkerPool
new_adaptive_worker_pool min = record {
  min_workers = min;
  started = false;
  cancelled = false;
  active_count = 0;
  wait_group = 0;
  workers = [];
  loops = [];
  callers = [];
}

-- No worker has this id. The source keeps eight characters of a uuid, and takes them to be new.
abbrev pub Unused : String → List WorkerThread → Type 0
Unused id = All λ w. str_eq w.id id ≡ false

-- The first step of spawnWorker; `count_in` and `worker_launched` are the others.
abbrev pub spawn_worker : String → AdaptiveWorkerPool → AdaptiveWorkerPool
spawn_worker id s = record s {
  workers = record { id = id; stage = entered; stop_done = false } ∷ s.workers;
}

abbrev pub launch_loop : Ticker → AdaptiveWorkerPool → AdaptiveWorkerPool
launch_loop k s = record s {
  loops = record { ticker = k; stage = waiting } ∷ s.loops;
  wait_group = suc s.wait_group;
}

-- The worker has been signalled, or has left the map.
abbrev pub Signalled : WorkerThread → Type 0
Signalled w = (w.stop_done ≡ true) ⊎ (w.stage ≡ removed)

abbrev pub signal_stop : WorkerThread → WorkerThread
signal_stop w = record w { stop_done = true }

-- The test of Start; a call that passes it goes on to spawn.
unfoldable pub start_pool : AdaptiveWorkerPool → AdaptiveWorkerPool × Option String
start_pool s =
    if s.started
    then (s, some "worker pool already started")
    else (record s { callers = spawns s.min_workers ∷ s.callers }, none)

-- A worker goes on by itself: `StageTurn min active cancelled stopped a b n`, with `n` the
-- activeCount behind the turn.
pub data StageTurn (min active : ℕ) (cancelled stopped : Bool) : Stage → Stage → ℕ → Type 0 where
  count_in : StageTurn min active cancelled stopped entered enrolled (suc active)
  see_cancel : cancelled ≡ true → StageTurn min active cancelled stopped selecting leaving active
  see_stop : stopped ≡ true → StageTurn min active cancelled stopped selecting leaving active
  idle_timer : StageTurn min active cancelled stopped selecting timed_out active
  poll :
      cancelled ≡ false
      → stopped ≡ false
      → StageTurn min active cancelled stopped selecting dequeuing active
  prompt_cancel : cancelled ≡ true → StageTurn min active cancelled stopped timed_out leaving active
  prompt_stop : stopped ≡ true → StageTurn min active cancelled stopped timed_out leaving active
  still_wanted :
      cancelled ≡ false
      → stopped ≡ false
      → StageTurn min active cancelled stopped timed_out may_leave active
  can_leave : min < active → StageTurn min active cancelled stopped may_leave idle_check active
  must_stay : active ≤ min → StageTurn min active cancelled stopped may_leave selecting active
  idle_return : StageTurn min active cancelled stopped idle_check leaving active
  get_task : StageTurn min active cancelled stopped dequeuing executing active
  no_task : StageTurn min active cancelled stopped dequeuing sleeping active
  slept : StageTurn min active cancelled stopped sleeping selecting active
  sleep_cancelled :
      cancelled ≡ true → StageTurn min active cancelled stopped sleeping leaving active
  sleep_stopped : stopped ≡ true → StageTurn min active cancelled stopped sleeping leaving active
  task_done : StageTurn min active cancelled stopped executing selecting active
  decrement : StageTurn min active cancelled stopped leaving uncounted (active - 1)
  leave_map : StageTurn min active cancelled stopped uncounted removed active

-- A loop goes on. Only checkAndScale spawns workers.
pub data LoopTurn (cancelled : Bool) : Ticker → LoopStage → LoopStage → Type 0 where
  see_cancel : {k : Ticker} → cancelled ≡ true → LoopTurn cancelled k waiting ending
  tick : {k : Ticker} → LoopTurn cancelled k waiting ticked
  prompt_cancel : {k : Ticker} → cancelled ≡ true → LoopTurn cancelled k ticked ending
  scale_round : (n : ℕ) → cancelled ≡ false → LoopTurn cancelled scaling ticked (busy n)
  other_round :
      {k : Ticker} {n : ℕ} → cancelled ≡ false → n ≡ 0 → LoopTurn cancelled k ticked (busy n)
  round_done : {k : Ticker} {n : ℕ} → n ≡ 0 → LoopTurn cancelled k (busy n) waiting

-- What the goroutines of the pool do by themselves.
pub data Internal (s : AdaptiveWorkerPool) : AdaptiveWorkerPool → Type 0 where
  worker_turn :
      {id : String} {d : Bool} {a b : Stage} {n : ℕ} {ws : List WorkerThread}
      → StageTurn s.min_workers s.active_count s.cancelled d a b n
      → Replace
          (record { id = id; stage = a; stop_done = d })
          (record { id = id; stage = b; stop_done = d })
          s.workers
          ws
      → Internal s (record s { workers = ws; active_count = n })
  -- wg.Add and the start of the goroutine.
  worker_launched :
      {id : String} {d : Bool} {ws : List WorkerThread}
      → Replace
          (record { id = id; stage = enrolled; stop_done = d })
          (record { id = id; stage = selecting; stop_done = d })
          s.workers
          ws
      → Internal s (record s { workers = ws; wait_group = suc s.wait_group })
  worker_done :
      {id : String} {d : Bool} {ws : List WorkerThread}
      → Remove (record { id = id; stage = removed; stop_done = d }) s.workers ws
      → Internal s (record s { workers = ws; wait_group = s.wait_group - 1 })
  loop_turn :
      {k : Ticker} {a b : LoopStage} {ls : List LoopThread}
      → LoopTurn s.cancelled k a b
      → Replace (record { ticker = k; stage = a }) (record { ticker = k; stage = b }) s.loops ls
      → Internal s (record s { loops = ls })
  loop_spawns :
      (id : String) {k : Ticker} {n : ℕ} {ls : List LoopThread}
      → Unused id s.workers
      → Replace
          (record { ticker = k; stage = busy (suc n) })
          (record { ticker = k; stage = busy n })
          s.loops
          ls
      → Internal s (spawn_worker id (record s { loops = ls }))
  loop_done :
      {k : Ticker} {ls : List LoopThread}
      → Remove (record { ticker = k; stage = ending }) s.loops ls
      → Internal s (record s { loops = ls; wait_group = s.wait_group - 1 })

-- What the calls of Scale, Start and Stop do. Scale and Stop signal the workers of the map one by
-- one; Stop goes on to wait when it has been through the map.
pub data External (s : AdaptiveWorkerPool) : AdaptiveWorkerPool → Type 0 where
  scale_spawns : (id : String) → Unused id s.workers → External s (spawn_worker id s)
  signals_worker :
      {w : WorkerThread} {ws : List WorkerThread}
      → Replace w (signal_stop w) s.workers ws
      → External s (record s { workers = ws })
  start_called : External s (start_pool s).0
  start_spawns :
      (id : String) {n : ℕ} {cs : List Caller}
      → Unused id s.workers
      → Replace (spawns (suc n)) (spawns n) s.callers cs
      → External s (spawn_worker id (record s { callers = cs }))
  start_spawned :
      {n : ℕ} {cs : List Caller}
      → n ≡ 0
      → Replace (spawns n) (launches (scaling ∷ stuck_detection ∷ heartbeat ∷ [])) s.callers cs
      → External s (record s { callers = cs })
  start_launches :
      {k : Ticker} {ks : List Ticker} {cs : List Caller}
      → Replace (launches (k ∷ ks)) (launches ks) s.callers cs
      → External s (launch_loop k (record s { callers = cs }))
  start_returns :
      {cs : List Caller}
      → Remove (launches []) s.callers cs
      → External s (record s { callers = cs; started = true })
  stop_called : External s (record s { callers = signals ∷ s.callers; cancelled = true })
  stop_signalled :
      {cs : List Caller}
      → All Signalled s.workers
      → Replace signals waits s.callers cs
      → External s (record s { callers = cs })
  stop_graceful :
      {cs : List Caller}
      → s.wait_group ≡ 0
      → Remove waits s.callers cs
      → External s (record s { callers = cs; started = false })
  stop_times_out :
      {cs : List Caller}
      → Remove waits s.callers cs
      → External s (record s { callers = cs; started = false })

-- What can follow a state, and the states of a new pool.
pub data Later (s : AdaptiveWorkerPool) : AdaptiveWorkerPool → Type 0 where
  now : Later s s
  inside : {t u : AdaptiveWorkerPool} → Later s t → Internal t u → Later s u
  outside : {t u : AdaptiveWorkerPool} → Later s t → External t u → Later s u
