-- ===== src/Events.antt =====
-- The events of a task's life: their types and topics, and the event that is made from a task
-- (events.go). The id of an event and the instant are parameters: the source takes them from the
-- clock. TraceID, which nothing sets, is left out.
pub mod Publisher
pub mod Messages
pub mod Sinks
pub mod Ids
use background_tasks.Base.{
  ℕ, ◌≡◌, ℤ, pos, Bool, true, false, Option, none, some, List, [], ◌∷◌, String, Time, Duration,
  since,
}
use background_tasks.Task.{BackgroundTask, TaskStatus, Float64}

-- `other` stands for a string that is none of the constants.
pub data TaskEventType : Type 0 where
  created started progress heartbeat paused resumed completed failed stuck cancelled retrying :
      TaskEventType
  dead_letter log resource : TaskEventType
  other : String → TaskEventType

abbrev pub type_name : TaskEventType → String
type_name created = "task.created"
type_name started = "task.started"
type_name progress = "task.progress"
type_name heartbeat = "task.heartbeat"
type_name paused = "task.paused"
type_name resumed = "task.resumed"
type_name completed = "task.completed"
type_name failed = "task.failed"
type_name stuck = "task.stuck"
type_name cancelled = "task.cancelled"
type_name retrying = "task.retrying"
type_name dead_letter = "task.deadletter"
type_name log = "task.log"
type_name resource = "task.resource"
type_name (other s) = s

abbrev pub topic_task_events : String
topic_task_events = "helixagent.events.tasks"

abbrev pub topic : TaskEventType → String
topic created = "helixagent.events.tasks.created"
topic started = "helixagent.events.tasks.started"
topic progress = "helixagent.events.tasks.progress"
topic heartbeat = "helixagent.events.tasks.progress"
topic completed = "helixagent.events.tasks.completed"
topic failed = "helixagent.events.tasks.failed"
topic stuck = "helixagent.events.tasks.stuck"
topic cancelled = "helixagent.events.tasks.cancelled"
topic retrying = "helixagent.events.tasks.retrying"
topic dead_letter = "helixagent.events.tasks.deadletter"
topic _ = topic_task_events

-- What the source puts into the metadata of an event; `result` is a value of the caller.
pub data MetaValue : Type 0 where
  text : String → MetaValue
  number : ℤ → MetaValue
  instant : Time → MetaValue
  result : ℕ → MetaValue

pub record BackgroundTaskEvent : Type 0 where
  pub event_id : String
  pub event_type : TaskEventType
  pub task_id : String
  pub task_type : String
  pub task_name : String
  pub status : TaskStatus
  pub worker_id : String
  pub progress : Float64
  pub progress_message : String
  pub error : String
  pub duration : Duration
  pub retry_count : ℤ
  pub metadata : List (String × MetaValue)
  pub timestamp : Time
  pub correlation_id : String

abbrev or_empty : Option String → String
or_empty none = ""
or_empty (some s) = s

abbrev elapsed : Option Time → Time → Duration
elapsed none now = pos 0
elapsed (some started_at) now = since now started_at

unfoldable pub new_background_task_event :
    String → Time → TaskEventType → BackgroundTask → BackgroundTaskEvent
new_background_task_event event_id now type task = record {
  event_id = event_id;
  event_type = type;
  task_id = task.id;
  task_type = task.task_type;
  task_name = task.task_name;
  status = task.status;
  worker_id = or_empty task.worker_id;
  progress = task.progress;
  progress_message = or_empty task.progress_message;
  error = or_empty task.last_error;
  duration = elapsed task.started_at now;
  retry_count = task.retry_count;
  metadata = [];
  timestamp = now;
  correlation_id = or_empty task.correlation_id;
}
