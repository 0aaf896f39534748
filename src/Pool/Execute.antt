-- ===== src/Pool/Execute.antt =====
-- The execution of one task: executeTask, handleTaskSuccess, handleTaskError and
-- updateHeartbeats (worker_pool.go). The calls of the repository, the queue,
-- the notifier, the monitor and the metrics are a list of effects, in order; the code only logs
-- their errors. Tasks and workers are passed through.
pub mod Branches
pub mod Laws
pub mod Tally
use Prim.Native.String.{◌++◌ as string_append}
use background_tasks.Base.{
  ℕ, suc, ◌≡◌, ℤ, pos, ◌+ℤ◌, quot_ℤ, Bool, true, false, Option, none, some, List, [], ◌∷◌, ◌++◌,
  String, Time, Duration, seconds, second, str_eq, ◌==◌, if◌then◌else◌, eqb_ℤ, ◌*◌,
}
use background_tasks.EventData.{Value, Data, text, number}
use background_tasks.Task.{BackgroundTask, TaskStatus, Float64, Models}

-- The event names of models that the pool passes on.
pub data TaskEvent : Type 0 where
  started completed failed stuck : TaskEvent

pub data Metric : Type 0 where
  tasks_total : String → String → Metric
  task_retries task_duration : String → Metric
  dead_letter_tasks stuck_tasks : Metric

pub data Effect : Type 0 where
  monitoring_started : String → ℤ → Effect
  monitoring_stopped : String → Effect
  notified : BackgroundTask → TaskEvent → Data → Effect
  executed : BackgroundTask → Option Duration → Effect
  updated : BackgroundTask → Effect
  logged : String → TaskEvent → Data → Option String → Effect
  requeued : String → Duration → Effect
  dead_lettered : String → String → Effect
  heartbeat : String → Effect
  counted : Metric → Effect

-- What the pool was built with, and what the queue's Requeue and MoveToDeadLetter do to the object
-- behind `task` (nothing, if the queue keeps its tasks elsewhere).
pub record Env : Type 0 where
  pub has_monitor : Bool
  pub has_notifier : Bool
  pub has_metrics : Bool
  pub on_requeue : BackgroundTask → Duration → BackgroundTask
  pub on_dead_letter : BackgroundTask → String → BackgroundTask
  pub hundred : Float64

pub record Worker : Type 0 where
  pub id : String
  pub tasks_completed : ℕ
  pub tasks_failed : ℕ
  pub total_duration : Duration

pub record Execution : Type 0 where
  pub task : BackgroundTask
  pub worker : Worker
  pub effects : List Effect

abbrev pub only_if : Bool → Effect → List Effect
only_if b e = if b then e ∷ [] else []

-- duration.Milliseconds()
abbrev pub duration_ms : Duration → String × Value
duration_ms duration = ("duration_ms", number (quot_ℤ duration (pos 1000000)))

abbrev pub failure_data : BackgroundTask → String → Data
failure_data t msg = ("error", text msg) ∷ ("retry_count", number t.retry_count) ∷ []

unfoldable pub handle_task_success : Env → BackgroundTask → Worker → Duration → Time → Execution
handle_task_success env task worker duration now =
    let t = record task {
      status = TaskStatus.completed;
      completed_at = some now;
      progress = env.hundred;
    } in
    record {
      task = t;
      worker = record worker { tasks_completed = suc worker.tasks_completed };
      effects =
          updated t
          ∷ logged t.id completed (duration_ms duration ∷ ("worker_id", text worker.id) ∷ [])
              (some worker.id)
          ∷ (only_if env.has_notifier (notified t completed (duration_ms duration ∷ []))
              ++ only_if env.has_metrics (counted (tasks_total t.task_type "completed")));
    }

abbrev pub retry_branch : Env → BackgroundTask → Worker → BackgroundTask × List Effect
retry_branch env t worker = (
  env.on_requeue t (seconds t.retry_delay_seconds),
  requeued t.id (seconds t.retry_delay_seconds)
      ∷ only_if env.has_metrics (counted (task_retries t.task_type)),
)

abbrev pub give_up_branch : Env → BackgroundTask → String → BackgroundTask × List Effect
give_up_branch env task msg =
    let t = record task { status = TaskStatus.failed } in
    let t' = env.on_dead_letter t msg in
    (
      t',
      updated t
          ∷ dead_lettered t.id msg
          ∷ (only_if env.has_notifier (notified t' failed (failure_data t' msg))
              ++ (only_if env.has_metrics (counted (tasks_total t'.task_type "failed"))
                  ++ only_if env.has_metrics (counted dead_letter_tasks))),
    )

unfoldable pub handle_task_error : Models → Env → BackgroundTask → Worker → String → Execution
handle_task_error m env task worker msg =
    let t = record task { last_error = some msg } in
    let (t', done) =
      if m.can_retry t then retry_branch env t worker else give_up_branch env t msg in
    record {
      task = t';
      worker = record worker { tasks_failed = suc worker.tasks_failed };
      effects =
          done
          ++ logged t'.id failed (failure_data t' msg ++ ("worker_id", text worker.id) ∷ [])
              (some worker.id)
            ∷ [];
    }

-- An executor returns the task as it left it, and the text of its error.
abbrev pub TaskExecutor : Type 0
TaskExecutor = BackgroundTask → BackgroundTask × Option String

-- The map of executors, whose lock makes a registration one step.
abbrev pub register_executor :
    (String → Option TaskExecutor) → String → TaskExecutor → String → Option TaskExecutor
register_executor executors task_type executor type =
    if str_eq task_type type then some executor else executors type

-- The timeout of the task's context: none for an endless task, and 30 minutes for 0.
abbrev pub task_timeout : BackgroundTask → Option Duration
task_timeout t =
    if t.config.endless
    then none
    else if eqb_ℤ t.config.timeout_seconds (pos 0)
    then some (pos (1800 * second))
    else some (seconds t.config.timeout_seconds)

abbrev pub timed_task : BackgroundTask → Duration → BackgroundTask
timed_task t duration = record t { actual_duration_seconds = some (quot_ℤ duration (pos second)) }

abbrev pub timed_worker : Worker → Duration → Worker
timed_worker w duration = record w { total_duration = w.total_duration +ℤ duration }

abbrev pub conclude :
    Models → Env → Worker → Duration → Time → BackgroundTask → Option String → Execution
conclude m env w duration now task none = handle_task_success env task w duration now
conclude m env w duration now task (some msg) = handle_task_error m env task w msg

-- The end of executeTask, with what Execute returned.
abbrev pub finish :
    Models → Env → Worker → Duration → Time → BackgroundTask × Option String → Execution
finish m env worker duration now (t, err) =
    let run =
      conclude m env (timed_worker worker duration) duration now (timed_task t duration) err in
    record run {
      effects = run.effects ++ only_if env.has_metrics (counted (task_duration run.task.task_type));
    }

-- The run with what precedes it: the notice and the call of the executor.
abbrev pub announced : Env → Worker → BackgroundTask → Execution → Execution
announced env worker task run = record run {
  effects =
      only_if env.has_notifier (notified task started (("worker_id", text worker.id) ∷ []))
      ++ executed task (task_timeout task) ∷ run.effects;
}

-- `pid` is set and there is a monitor.
abbrev pub with_monitoring : Env → BackgroundTask → Execution → Execution
with_monitoring env task run =
    if env.has_monitor
    then elim task.process_pid [
      | none ↦ run
      | some pid ↦ record run {
        effects =
            monitoring_started task.id pid ∷ (run.effects ++ monitoring_stopped run.task.id ∷ []);
      }
    ]
    else run

abbrev pub no_executor_error : BackgroundTask → String
no_executor_error task = string_append "no executor registered for task type: " task.task_type

unfoldable pub execute_task :
    Models
    → Env
    → (String → Option TaskExecutor)
    → Worker
    → BackgroundTask
    → Duration
    → Time
    → Execution
execute_task m env executors worker task duration now = elim (executors task.task_type) [
  | none ↦ handle_task_error m env task worker (no_executor_error task)
  | some executor ↦
      with_monitoring env task
        (announced env worker task (finish m env worker duration now (executor task)))
]

-- The workers of the map, as updateHeartbeats reads them.
unfoldable pub update_heartbeats : List (Option BackgroundTask × Bool) → List Effect
update_heartbeats [] = []
update_heartbeats ((current, busy) ∷ ws) =
    let later = update_heartbeats ws in
    elim current [ none ↦ later | some t ↦ if busy then heartbeat t.id ∷ later else later ]
