-- ===== src/Checks/Samples.antt =====
-- Tasks, clocks and parameters that the tests share.
use background_tasks.Base.{
  ◌-◌, ◌+◌, ◌*◌, ◌/◌, ◌^◌, ltb, ◌==◌, pos_part, ℤ, pos, true, false, none, some, String, ltb_ℤ,
}
use background_tasks.Float.{FloatOps}
use background_tasks.Task.{
  BackgroundTask, TaskConfig, TaskStatus, TaskPriority, ResourceRequirements, Models,
}

-- Weights under which a lower number is more urgent.
abbrev pub sample_weight : TaskPriority → ℤ
sample_weight TaskPriority.critical = pos 0
sample_weight TaskPriority.high = pos 1
sample_weight TaskPriority.normal = pos 2
sample_weight _ = pos 3

abbrev pub sample_models : Models
sample_models = record {
  weight = sample_weight;
  can_retry = λ t. ltb_ℤ t.retry_count t.max_retries;
  is_overdue = λ t now. false;
  has_stale_heartbeat = λ t threshold now. elim t.last_heartbeat [
    | none ↦ true
    | some beat ↦ ltb_ℤ threshold (pos (now - beat))
  ];
}

abbrev pub plain_config : TaskConfig
plain_config = record {
  endless = false;
  stuck_threshold_secs = pos 0;
  timeout_seconds = pos 0;
  capture_output = false;
}

abbrev pub sample_task : String → TaskPriority → BackgroundTask
sample_task id p = record {
  id = id;
  task_type = "report";
  task_name = "Process daily report";
  status = TaskStatus.unset;
  priority = p;
  scheduled_at = 0;
  worker_id = none;
  started_at = none;
  last_heartbeat = none;
  completed_at = none;
  created_at = 0;
  updated_at = 0;
  retry_count = pos 0;
  max_retries = pos 3;
  retry_delay_seconds = pos 5;
  required_cpu_cores = pos 1;
  required_memory_mb = pos 64;
  last_error = none;
  progress = 0;
  progress_message = none;
  correlation_id = none;
  process_pid = none;
  actual_duration_seconds = none;
  config = plain_config;
}

abbrev pub no_limits : ResourceRequirements
no_limits = record {
  cpu_cores = pos 0;
  memory_mb = pos 0;
  disk_mb = pos 0;
  gpu_count = pos 0;
  priority = TaskPriority.unset;
}

-- Fixed point in thousandths, in place of float64.
abbrev pub sample_floats : FloatOps
sample_floats = record {
  lt = ltb;
  eq = λ a b. a == b;
  add = λ a b. a + b;
  sub = λ a b. a - b;
  mul = λ a b. a * b / 1000;
  div = λ a b. a * 1000 / b;
  of_int = λ n. pos_part n * 1000;
  to_int = λ a. pos (a / 1000);
  lit = λ m e. m * 1000 / 10 ^ e;
}
