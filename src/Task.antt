-- ===== src/Task.antt =====
-- The data that the components pass around: the part of models.BackgroundTask that the source
-- reads or writes, and the requirements of interfaces.go. The module digital.vasic.models is not in
-- the repository; its statuses and priorities are those that the source and
-- docs/TASK_LIFECYCLE.md name, and its methods are the parameter `Models`.
use background_tasks.Base.{
  ℕ, ℤ, Bool, true, false, String, Option, Time, Duration, str_eq, ◌≡◌, ap, ◌↔◌, arith, eq_iff,
}

pub data TaskStatus : Type 0 where
  unset pending running completed failed cancelled paused stuck dead_letter : TaskStatus
  other : String → TaskStatus

pub data TaskPriority : Type 0 where
  unset critical high normal low : TaskPriority
  other : String → TaskPriority

-- A float64 is its bit pattern; the operations are a parameter where they are used.
abbrev pub Float64 : Type 0
Float64 = ℕ

pub record TaskConfig : Type 0 where
  pub endless : Bool
  pub stuck_threshold_secs : ℤ
  pub timeout_seconds : ℤ
  pub capture_output : Bool

pub record BackgroundTask : Type 0 where
  pub id : String
  pub task_type : String
  pub task_name : String
  pub status : TaskStatus
  pub priority : TaskPriority
  pub scheduled_at : Time
  pub worker_id : Option String
  pub started_at : Option Time
  pub last_heartbeat : Option Time
  pub completed_at : Option Time
  pub created_at : Time
  pub updated_at : Time
  pub retry_count : ℤ
  pub max_retries : ℤ
  pub retry_delay_seconds : ℤ
  pub required_cpu_cores : ℤ
  pub required_memory_mb : ℤ
  pub last_error : Option String
  pub progress : Float64
  pub progress_message : Option String
  pub correlation_id : Option String
  pub process_pid : Option ℤ
  pub actual_duration_seconds : Option ℤ
  pub config : TaskConfig

pub record ResourceRequirements : Type 0 where
  pub cpu_cores : ℤ
  pub memory_mb : ℤ
  pub disk_mb : ℤ
  pub gpu_count : ℤ
  pub priority : TaskPriority

-- The methods of models.TaskPriority and models.BackgroundTask; those that compare with the clock
-- take the instant of the call.
pub record Models : Type 0 where
  pub weight : TaskPriority → ℤ
  pub can_retry : BackgroundTask → Bool
  pub is_overdue : BackgroundTask → Time → Bool
  pub has_stale_heartbeat : BackgroundTask → Duration → Time → Bool

abbrev pub is_pending : TaskStatus → Bool
is_pending TaskStatus.pending = true
is_pending _ = false

abbrev pub is_running : TaskStatus → Bool
is_running TaskStatus.running = true
is_running _ = false

-- Equality of the strings behind two priorities, as the key test of map[TaskPriority]int64.
abbrev pub priority_eq : TaskPriority → TaskPriority → Bool
priority_eq TaskPriority.unset TaskPriority.unset = true
priority_eq TaskPriority.critical TaskPriority.critical = true
priority_eq TaskPriority.high TaskPriority.high = true
priority_eq TaskPriority.normal TaskPriority.normal = true
priority_eq TaskPriority.low TaskPriority.low = true
priority_eq (TaskPriority.other s) (TaskPriority.other t) = str_eq s t
priority_eq _ _ = false

pub priority_eq_iff : (p q : TaskPriority) → (priority_eq p q ≡ true) ↔ (p ≡ q)
priority_eq_iff (TaskPriority.other s) (TaskPriority.other t) =
    (λ h. ap TaskPriority.other ((eq_iff s t).0 h), λ e. (eq_iff s t).1 (cc))
priority_eq_iff p q = ground arith

-- Equality of the strings behind two statuses.
abbrev pub status_eq : TaskStatus → TaskStatus → Bool
status_eq TaskStatus.unset TaskStatus.unset = true
status_eq TaskStatus.pending TaskStatus.pending = true
status_eq TaskStatus.running TaskStatus.running = true
status_eq TaskStatus.completed TaskStatus.completed = true
status_eq TaskStatus.failed TaskStatus.failed = true
status_eq TaskStatus.cancelled TaskStatus.cancelled = true
status_eq TaskStatus.paused TaskStatus.paused = true
status_eq TaskStatus.stuck TaskStatus.stuck = true
status_eq TaskStatus.dead_letter TaskStatus.dead_letter = true
status_eq (TaskStatus.other s) (TaskStatus.other t) = str_eq s t
status_eq _ _ = false

pub status_eq_iff : (p q : TaskStatus) → (status_eq p q ≡ true) ↔ (p ≡ q)
status_eq_iff (TaskStatus.other s) (TaskStatus.other t) =
    (λ h. ap TaskStatus.other ((eq_iff s t).0 h), λ e. (eq_iff s t).1 (cc))
status_eq_iff p q = ground arith
