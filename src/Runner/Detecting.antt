-- ===== src/Runner/Detecting.antt =====
-- The third section of the challenge runner (section3StuckDetector in challenges/runner/main.go),
-- which asks a DefaultStuckDetector about a task whose heartbeat is stale and about one whose
-- heartbeat is fresh. models.DefaultTaskConfig is a parameter, and so are the methods of a task.
pub mod Passes
use background_tasks.Base.{
  ℕ, ◌+◌, ◌-◌, ◌*◌, ◌≤◌, ◌≡◌, refl, ◌∙◌, ℤ, pos, negsuc, ltb_ℤ, eqb_ℤ, Bool, true, false, not,
  Option, none, some, List, [], ◌∷◌, String, Time, Duration, second, seconds, since, add_time,
  is_some, if◌then◌else◌, arith,
}
use background_tasks.Task.{BackgroundTask, TaskConfig, TaskStatus, TaskPriority, Models}
use background_tasks.Float.{FloatOps}
use background_tasks.Stuck.{
  DefaultStuckDetector, new_default_stuck_detector, get_stuck_threshold, set_threshold,
  check_heartbeat_timeout, snapshot_reason, is_stuck,
}
use background_tasks.Stuck.Config.{default_stuck_detector_config}
use background_tasks.Stuck.Analysis.{StuckAnalysis, analyze_task}
use background_tasks.Stuck.Laws.{get-set_threshold}
use background_tasks.Runner.Queueing.{Line, passed, failed, line}

-- The readings of the clock, in the order of the code; a check of the detector takes one instant.
pub record DetectorClock : Type 0 where
  pub stale_read : Time
  pub started_read : Time
  pub stale_checked : Time
  pub analyzed : Time
  pub fresh_read : Time
  pub fresh_checked : Time

abbrev pub seven_minutes : Duration
seven_minutes = pos (420 * second)

abbrev pub seven_minute_detector : DefaultStuckDetector
seven_minute_detector = set_threshold new_default_stuck_detector "custom_type" seven_minutes

abbrev pub minus_seconds : ℕ → Duration
minus_seconds n = seconds (negsuc (n - 1))

module _ (ops : FloatOps) (m : Models) (default_task_config : TaskConfig) where
  -- The literal of a task; the fields that it does not name have their zero value.
  abbrev pub watched : String → Time → Time → BackgroundTask
  watched id beat started = record {
    id = id;
    task_type = "custom_type";
    task_name = "";
    status = TaskStatus.running;
    priority = TaskPriority.unset;
    scheduled_at = 0;
    worker_id = none;
    started_at = some started;
    last_heartbeat = some beat;
    completed_at = none;
    created_at = 0;
    updated_at = 0;
    retry_count = pos 0;
    max_retries = pos 0;
    retry_delay_seconds = pos 0;
    required_cpu_cores = pos 0;
    required_memory_mb = pos 0;
    last_error = none;
    progress = ops.of_int (pos 0);
    progress_message = none;
    correlation_id = none;
    process_pid = none;
    actual_duration_seconds = none;
    config = default_task_config;
  }

  abbrev pub stale_task : DetectorClock → BackgroundTask
  stale_task c =
      watched "stuck-task-001" (add_time c.stale_read (minus_seconds 1800))
        (add_time c.started_read (minus_seconds 3600))

  abbrev pub recent_task : DetectorClock → BackgroundTask
  recent_task c = watched "fresh-task-001" c.fresh_read c.fresh_read

  -- AnalyzeTask answers a record, which is not nil.
  abbrev pub report_analysis : StuckAnalysis → Line
  report_analysis analysis = passed "AnalyzeTask"

  -- What is printed of the detector once its threshold is set.
  unfoldable pub report_detector : DefaultStuckDetector → DetectorClock → List Line
  report_detector d c =
      line "SetThreshold/GetStuckThreshold"
        (eqb_ℤ (get_stuck_threshold d "custom_type") seven_minutes)
      ∷ line "stale-heartbeat" (is_some (is_stuck ops m d (some (stale_task c)) [] c.stale_checked))
      ∷ report_analysis (analyze_task ops m d (stale_task c) [] c.analyzed)
      ∷ line "fresh-heartbeat"
          (not (is_some (is_stuck ops m d (some (recent_task c)) [] c.fresh_checked)))
      ∷ []

  unfoldable pub section3 : DetectorClock → List Line
  section3 c =
      if ltb_ℤ (pos 0) (default_stuck_detector_config ops).default_threshold
      then passed "DefaultStuckDetectorConfig"
        ∷ passed "NewDefaultStuckDetector"
        ∷ report_detector seven_minute_detector c
      else failed "DefaultStuckDetectorConfig" ∷ []
