-- ===== src/Pool/Status.antt =====
-- GetActiveTaskCount and GetWorkerStatus (worker_pool.go), over the entries of the map of workers in
-- the order in which they are met.
pub mod Laws
use background_tasks.Base.{
  ℕ, suc, ◌≡◌, ℤ, pos, quot_ℤ, Bool, true, false, Option, none, some, List, [], ◌∷◌, map, String,
  Time, Duration, ltb, if◌then◌else◌,
}
use background_tasks.Task.{BackgroundTask, Models}
use background_tasks.Pool.Execute.{Worker, Env, TaskExecutor, execute_task}

pub data WorkerState : Type 0 where
  idle busy stopping stopped : WorkerState

abbrev pub state_name : WorkerState → String
state_name idle = "idle"
state_name busy = "busy"
state_name stopping = "stopping"
state_name stopped = "stopped"

abbrev pub is_busy : WorkerState → Bool
is_busy busy = true
is_busy _ = false

-- `worker` holds the id and the counters.
pub record Entry : Type 0 where
  pub worker : Worker
  pub state : WorkerState
  pub current_task : Option BackgroundTask
  pub started_at : Time
  pub last_activity : Time

pub record WorkerStatus : Type 0 where
  pub id : String
  pub status : String
  pub current_task : Option BackgroundTask
  pub started_at : Time
  pub last_activity : Time
  pub tasks_completed : ℕ
  pub tasks_failed : ℕ
  pub avg_task_duration : Duration

unfoldable pub get_active_task_count : List Entry → ℕ
get_active_task_count [] = 0
get_active_task_count (e ∷ es) =
    let rest = get_active_task_count es in if is_busy e.state then suc rest else rest

abbrev pub average : Worker → Duration
average w =
    if ltb 0 w.tasks_completed then quot_ℤ w.total_duration (pos w.tasks_completed) else pos 0

abbrev pub status_of : Entry → WorkerStatus
status_of e = record {
  id = e.worker.id;
  status = state_name e.state;
  current_task = e.current_task;
  started_at = e.started_at;
  last_activity = e.last_activity;
  tasks_completed = e.worker.tasks_completed;
  tasks_failed = e.worker.tasks_failed;
  avg_task_duration = average e.worker;
}

unfoldable pub get_worker_status : List Entry → List WorkerStatus
get_worker_status = map status_of

-- A task, how long its executor took, and the instant at which it had returned.
pub record Job : Type 0 where
  pub task : BackgroundTask
  pub duration : Duration
  pub now : Time

module _ (m : Models) (env : Env) (executors : String → Option TaskExecutor) where
  -- The tasks that a worker executes one after the other.
  unfoldable pub work_through : Worker → List Job → Worker
  work_through w [] = w
  work_through w (j ∷ jobs) =
      work_through (execute_task m env executors w j.task j.duration j.now).worker jobs
