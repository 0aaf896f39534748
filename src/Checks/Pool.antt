-- ===== src/Checks/Pool.antt =====
-- The worker pool: runs, and the theorems at concrete inputs.
use background_tasks.Base.{
  ℤ, String, ◌≡◌, ◌+◌, refl, ◌⊎◌, pos, true, false, Option, none, some, List, [], ◌∷◌, ℕ, arith,
  ◌+ℤ◌, ◌-ℤ◌, ◌≤ℤ◌, ◌≢◌, ◌≤◌, ltb_ℤ, pos_part, min as min_ℕ, is_some, suc, if◌then◌else◌, lookup,
  insert, str_eq,
}
use background_tasks.Task.{BackgroundTask, TaskPriority, TaskStatus}
use background_tasks.Pool.Scale.{
  WorkerPoolConfig, SystemResources, WorkerView, scale, clamp_target, min, check_and_scale,
  stop_idle,
}
use background_tasks.Pool.Scale.Laws.{
  count, is_signalled, can_be_stopped, is_busy_signalled, IsCut, scale_lem, check_and_scale_bounded,
}
use background_tasks.Pool.Execute.{Env, Worker, TaskExecutor, execute_task, handle_task_error}
use background_tasks.Pool.Execute.Tally.{disposal, starts, stops, runs, tally}
use background_tasks.Pool.Execute.Laws.{execute_settles}
use background_tasks.Pool.Execute.{handle_task_success}
use background_tasks.Pool.Status.{
  idle, busy, Entry, Job, work_through, get_active_task_count, status_of,
}
use background_tasks.EventData.{other}
use background_tasks.Pool.Reporter.{log_data, add_fields}
use background_tasks.Pool.Workers.{
  polling, Member, PoolState, Reach, start, next, spawn, move, count_in, here,
}
use background_tasks.Pool.Workers.Laws.{Reach-Exact, counted}
use background_tasks.Checks.Samples.{sample_floats, sample_models, sample_task}

abbrev config : WorkerPoolConfig
config = record {
  min_workers = pos 2;
  max_workers = pos 6;
  scale_up_threshold = 700;
  scale_down_threshold = 300;
  scale_interval = pos 200;
  worker_idle_timeout = pos 2000;
  queue_poll_interval = pos 50;
  heartbeat_interval = pos 500;
  resource_check_interval = pos 1000;
  graceful_shutdown_time = pos 5000;
  max_cpu_percent = 80000;
  max_memory_percent = 80000;
}

-- 8 cores of which 2 are free, at 40% of the CPU and 30% of the memory.
abbrev resources : SystemResources
resources = record {
  total_cpu_cores = pos 8;
  available_cpu_cores = 2000;
  total_memory_mb = pos 1024;
  available_memory_mb = pos 3;
  cpu_load_percent = 40000;
  memory_used_percent = 30000;
  disk_used_percent = 10000;
  load_avg_1 = 0;
  load_avg_5 = 0;
  load_avg_15 = 0;
}

abbrev idle_worker : WorkerView
idle_worker = record { idle = true; signalled = false }

abbrev four_workers : List WorkerView
four_workers = idle_worker ∷ record idle_worker { idle = false } ∷ idle_worker ∷ idle_worker ∷ []

scale_down_run : scale config (pos 0) (pos 4) four_workers ≡ (
  0,
  record idle_worker { signalled = true }
      ∷ record idle_worker { idle = false }
      ∷ record idle_worker { signalled = true }
      ∷ idle_worker
      ∷ [],
)
unfolding scale clamp_target stop_idle
scale_down_run = refl

scale_lem_example :
    let (spawned, ws') = scale config (pos 0) (pos 4) four_workers in
    (t : ℤ) × IsCut config (pos 0) t
    × ((ltb_ℤ (pos 4) t ≡ true) × (pos 4 +ℤ pos spawned ≡ t) × (ws' ≡ four_workers)
        ⊎ (t ≤ℤ pos 4)
          × (spawned ≡ 0)
          × (count is_signalled ws'
              ≡ count is_signalled four_workers
                + min_ℕ (pos_part (pos 4 -ℤ t)) (count can_be_stopped four_workers)))
    × (count is_busy_signalled ws' ≡ count is_busy_signalled four_workers)
scale_lem_example = scale_lem config (pos 0) (pos 4) four_workers

spawns_three :
    (check_and_scale sample_floats config false (some resources) (pos 20) (pos 2)).spawned ≡ 3
unfolding check_and_scale min
spawns_three = refl

check_and_scale_bounded_example :
    (false ≡ false) × (some resources ≢ none) × (pos 2 +ℤ pos 3 ≤ℤ config.max_workers) × (3 ≤ 3)
check_and_scale_bounded_example =
    check_and_scale_bounded sample_floats config false (some resources) (pos 20) (pos 2) 2
      spawns_three

cut_above_two :
    (x : ℕ) → sample_floats.lt (sample_floats.lit 20 1) x ≡ true → pos 2 ≤ℤ sample_floats.to_int x
cut_above_two x h = ground arith

-- Needs 64 cores and 4096 MB.
abbrev huge_task : BackgroundTask
huge_task = record (sample_task "h" TaskPriority.normal) {
  status = TaskStatus.pending;
  required_cpu_cores = pos 64;
  required_memory_mb = pos 4096;
}

abbrev env : Env
env = record {
  has_monitor = true;
  has_notifier = true;
  has_metrics = false;
  on_requeue = λ t delay. record t { status = TaskStatus.pending };
  on_dead_letter = λ t msg. record t { status = TaskStatus.dead_letter };
  hundred = 100000;
}

abbrev worker : Worker
worker = record { id = "w1"; tasks_completed = 4; tasks_failed = 1; total_duration = pos 0 }

abbrev succeeds : TaskExecutor
succeeds t = (record t { progress = 50000 }, none)

abbrev executors : String → Option TaskExecutor
executors type = some succeeds

abbrev watched_task : BackgroundTask
watched_task = record (sample_task "r" TaskPriority.normal) { process_pid = some (pos 77) }

execute_settles_example :
    let r = execute_task sample_models env executors worker watched_task (pos 9) 100 in
    (r.worker.tasks_completed + r.worker.tasks_failed
      ≡ suc (worker.tasks_completed + worker.tasks_failed))
    × (tally disposal r.effects ≡ 1)
    × (tally starts r.effects ≡ tally stops r.effects)
    × (tally runs r.effects ≡ (if is_some (executors watched_task.task_type) then 1 else 0))
execute_settles_example =
    execute_settles sample_models env executors worker watched_task (pos 9) 100

abbrev spent_task : BackgroundTask
spent_task = record watched_task { retry_count = pos 3 }

abbrev member : String → Member
member id = record { id = id; phase = polling; stop_done = false }

abbrev pool : PoolState
pool = record {
  min_workers = 1;
  members = member "b" ∷ member "a" ∷ [];
  active_count = 2;
  cancelled = false;
}

pool-Reach : Reach 1 pool
pool-Reach =
    next (next (next (next start (spawn "a" tt)) (move count_in here)) (spawn "b" (refl, tt)))
      (move count_in here)

Reach-Exact_example : pool.active_count ≡ counted pool.members
Reach-Exact_example = Reach-Exact pool-Reach

-- Two tasks in turn, of which the second fails.
abbrev mixed : String → Option TaskExecutor
mixed type =
    some
      λ t. if str_eq t.id "bad" then (t, some "broken") else (record t { progress = 50000 }, none)

abbrev new_entry : Entry
new_entry = record {
  worker = record { id = "w2"; tasks_completed = 0; tasks_failed = 0; total_duration = pos 0 };
  state = idle;
  current_task = none;
  started_at = 0;
  last_activity = 0;
}

abbrev jobs : List Job
jobs =
    record { task = sample_task "good" TaskPriority.low; duration = pos 4; now = 10 }
    ∷ record { task = sample_task "bad" TaskPriority.low; duration = pos 90; now = 200 }
    ∷ []

-- The task that completed took 4, and 94 is shown.
average_run :
    (status_of (record new_entry {
      worker = work_through sample_models env mixed new_entry.worker jobs;
    })).avg_task_duration
    ≡ pos 94
unfolding work_through execute_task handle_task_success handle_task_error
average_run = refl

busy_count : get_active_task_count (new_entry ∷ record new_entry { state = busy } ∷ []) ≡ 1
unfolding get_active_task_count
busy_count = refl

log_run : lookup "level" (log_data "info" "begun" (("level", 7) ∷ [])) ≡ some (other 7)
unfolding add_fields lookup insert
log_run = refl
