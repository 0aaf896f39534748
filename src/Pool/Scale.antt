-- ===== src/Pool/Scale.antt =====
-- The number of workers: Scale, checkAndScale, canScaleDown, calculateWorkerRequirements and min
-- (worker_pool.go). `current` is what GetWorkerCount loads; counts are plain numbers, the bounds of
-- the configuration too.
pub mod Laws
use background_tasks.Base.{
  ℕ, zero, suc, ◌+◌, ◌-◌, ◌≡◌, ℤ, pos, ◌+ℤ◌, ◌-ℤ◌, ltb_ℤ, eqb_ℤ, quot_ℤ, pos_part, neg_part, sub_ℕ,
  Bool, true, false, not, ◌&&◌, Option, none, some, List, [], ◌∷◌, ltb, ◌==◌, if◌then◌else◌,
  Duration, second, ◌*◌,
}
use background_tasks.Task.{ResourceRequirements, TaskPriority, Float64}
use background_tasks.Float.{FloatOps}

pub record WorkerPoolConfig : Type 0 where
  pub min_workers : ℤ
  pub max_workers : ℤ
  pub scale_up_threshold : Float64
  pub scale_down_threshold : Float64
  pub scale_interval : Duration
  pub worker_idle_timeout : Duration
  pub queue_poll_interval : Duration
  pub heartbeat_interval : Duration
  pub resource_check_interval : Duration
  pub max_cpu_percent : Float64
  pub max_memory_percent : Float64
  pub graceful_shutdown_time : Duration

-- `num_cpu` is runtime.NumCPU.
abbrev pub default_worker_pool_config : FloatOps → ℤ → WorkerPoolConfig
default_worker_pool_config ops num_cpu = record {
  min_workers = pos 2;
  max_workers = num_cpu +ℤ num_cpu;
  scale_up_threshold = ops.lit 7 1;
  scale_down_threshold = ops.lit 3 1;
  scale_interval = pos (30 * second);
  worker_idle_timeout = pos (300 * second);
  queue_poll_interval = pos (1 * second);
  heartbeat_interval = pos (10 * second);
  resource_check_interval = pos (5 * second);
  max_cpu_percent = ops.lit 800 1;
  max_memory_percent = ops.lit 800 1;
  graceful_shutdown_time = pos (30 * second);
}

pub record SystemResources : Type 0 where
  pub total_cpu_cores : ℤ
  pub available_cpu_cores : Float64
  pub total_memory_mb : ℤ
  pub available_memory_mb : ℤ
  pub cpu_load_percent : Float64
  pub memory_used_percent : Float64
  pub disk_used_percent : Float64
  pub load_avg_1 : Float64
  pub load_avg_5 : Float64
  pub load_avg_15 : Float64

-- The int of least value among three.
unfoldable pub min : ℤ → ℤ → ℤ → ℤ
min a b c = if ltb_ℤ a b then (if ltb_ℤ a c then a else c) else if ltb_ℤ b c then b else c

unfoldable pub clamp_target : WorkerPoolConfig → ℤ → ℤ
clamp_target cfg target =
    let raised = if ltb_ℤ target cfg.min_workers then cfg.min_workers else target in
    if ltb_ℤ cfg.max_workers raised then cfg.max_workers else raised

-- A worker of the map as Scale looks at it: idle or not, and whether stopOnce has run.
pub record WorkerView : Type 0 where
  pub idle : Bool
  pub signalled : Bool

-- The loop over the workers: an idle one is signalled while fewer than `wanted` were; signalStop
-- reports whether this call was the first.
unfoldable pub stop_idle : ℕ → ℕ → List WorkerView → List WorkerView
stop_idle wanted stopped [] = []
stop_idle wanted stopped (w ∷ ws) =
    let asked = w.idle && ltb stopped wanted in
    let first = asked && not w.signalled in
    (if asked then record w { signalled = true } else w)
    ∷ stop_idle wanted (if first then suc stopped else stopped) ws

-- How many workers Scale spawns, and the map after its signals.
unfoldable pub scale : WorkerPoolConfig → ℤ → ℤ → List WorkerView → ℕ × List WorkerView
scale cfg target current workers =
    let diff = clamp_target cfg target -ℤ current in
    if ltb_ℤ (pos 0) diff
    then (pos_part diff, workers)
    else if ltb_ℤ diff (pos 0)
    then (0, stop_idle (neg_part diff) 0 workers)
    else (0, workers)

pub data Direction : Type 0 where
  up down : Direction

pub record ScaleResult : Type 0 where
  pub spawned : ℕ
  pub events : List Direction  -- ScalingEvents, in order

module _ (ops : FloatOps) where
  abbrev pub load_factor : SystemResources → Float64
  load_factor r =
      ops.div
        (ops.add (ops.div r.cpu_load_percent (ops.lit 1000 1))
          (ops.div r.memory_used_percent (ops.lit 1000 1)))
        (ops.lit 20 1)

  abbrev pub queue_pressure : ℤ → ℤ → Float64
  queue_pressure pending current = ops.div (ops.of_int pending) (ops.of_int (current +ℤ pos 1))

  abbrev pub wants_more : WorkerPoolConfig → SystemResources → ℤ → ℤ → Bool
  wants_more cfg r pending current =
      ops.lt (load_factor r) cfg.scale_up_threshold
      && ops.lt (ops.lit 20 1) (queue_pressure pending current)
      && ltb_ℤ current cfg.max_workers
      && ops.lt r.cpu_load_percent cfg.max_cpu_percent
      && ops.lt r.memory_used_percent cfg.max_memory_percent

  abbrev pub wants_fewer : WorkerPoolConfig → SystemResources → ℤ → ℤ → Bool
  wants_fewer cfg r pending current =
      ops.lt (load_factor r) cfg.scale_down_threshold
      && ops.lt (queue_pressure pending current) (ops.lit 5 1)
      && ltb_ℤ cfg.min_workers current

  abbrev pub workers_to_add : WorkerPoolConfig → ℤ → ℤ → ℤ
  workers_to_add cfg pending current =
      min (cfg.max_workers -ℤ current) (ops.to_int (queue_pressure pending current)) (pos 3)

  -- `resources` is `none` without a monitor, or where GetSystemResources fails; `pending` is 0
  -- where GetPendingCount fails. `scaling` is the flag that the compare-and-swap tests. The pool has
  -- metrics; without them there are no events.
  unfoldable pub check_and_scale :
      WorkerPoolConfig → Bool → Option SystemResources → ℤ → ℤ → ScaleResult
  check_and_scale cfg true resources pending current = record { spawned = 0; events = [] }
  check_and_scale cfg false none pending current = record { spawned = 0; events = [] }
  check_and_scale cfg false (some r) pending current =
      let fewer = if wants_fewer cfg r pending current then down ∷ [] else [] in
      if wants_more cfg r pending current
      then record { spawned = pos_part (workers_to_add cfg pending current); events = up ∷ fewer }
      else record { spawned = 0; events = fewer }

abbrev pub can_scale_down : WorkerPoolConfig → ℤ → Bool
can_scale_down cfg current = ltb_ℤ cfg.min_workers current

abbrev no_requirements : ResourceRequirements
no_requirements = record {
  cpu_cores = pos 0;
  memory_mb = pos 0;
  disk_mb = pos 0;
  gpu_count = pos 0;
  priority = TaskPriority.unset;
}

-- What a worker asks the queue for: its share of what is free.
unfoldable pub calculate_worker_requirements :
    FloatOps → Option SystemResources → ℤ → ResourceRequirements
calculate_worker_requirements ops none current = no_requirements
calculate_worker_requirements ops (some r) current =
    let count = if eqb_ℤ current (pos 0) then pos 1 else current in
    record no_requirements {
      cpu_cores = quot_ℤ (ops.to_int r.available_cpu_cores) count;
      memory_mb = quot_ℤ r.available_memory_mb count;
    }
