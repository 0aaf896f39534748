-- ===== src/Runner/Monitoring.antt =====
-- The fourth section of the challenge runner (section4ResourceMonitor in challenges/runner/main.go),
-- which asks a ProcessResourceMonitor about the system and its own process, and has it monitor that
-- process for a while. What gopsutil reads is a parameter, and so is what the goroutines of the
-- monitor do to its state during the sleep.
pub mod Passes
use background_tasks.Base.{
  ◌*◌, ◌/◌, ℤ, pos, ltb_ℤ, ◌&&◌, ◌⊎◌, Bool, true, false, Option, none, some, List, [], ◌∷◌, ◌++◌,
  String, Time, Duration, second, if◌then◌else◌,
}
use background_tasks.Float.{FloatOps}
use background_tasks.Pool.Scale.{SystemResources}
use background_tasks.Postgres.{Answer, ok, failed as error}
use background_tasks.Resources.{
  SystemReadings, ResourceCache, new_resource_cache, get_system_resources, is_resource_available,
}
use background_tasks.Resources.Monitors.{
  Monitors, new_monitors, Failure, Stopped, done, panicked, start_monitoring, stop_monitoring,
  get_latest_snapshot,
}
use background_tasks.Stuck.{ResourceSnapshot}
use background_tasks.Runner.Queueing.{Line, passed, failed, line, any_size}

pub record MonitorClock : Type 0 where
  pub asked : Time
  pub filled : Time
  pub asked_again : Time
  pub filled_again : Time
  pub sampled : Time

abbrev pub watched_id : String
watched_id = "monitor-task-001"

abbrev pub tenth_of_a_second : Duration
tenth_of_a_second = pos (second / 10)

-- A panic ends the runner.
abbrev pub stopped_lines : Stopped → List Line
stopped_lines done = passed "StopMonitoring" ∷ []
stopped_lines panicked = []

abbrev pub start_line : Option Failure → Line
start_line none = passed "StartMonitoring"
start_line (some e) = failed "StartMonitoring"

-- Both branches print a pass.
abbrev pub latest_line : Failure ⊎ ResourceSnapshot → Line
latest_line answer = passed "GetLatestSnapshot"

-- The monitoring of the process `pid`; `sleep` is what its goroutines do meanwhile.
unfoldable pub report_monitoring : ℤ → (Monitors → Monitors) → List Line
report_monitoring pid sleep =
    let (s, err) = start_monitoring (new_monitors true) watched_id pid tenth_of_a_second in
    start_line err
    ∷ latest_line (get_latest_snapshot (sleep s) watched_id)
    ∷ stopped_lines (stop_monitoring (sleep s) watched_id).1

abbrev pub sample_line : Answer ResourceSnapshot → Line
sample_line (error e) = failed "GetProcessResources"
sample_line (ok snapshot) = passed "GetProcessResources"

module _ (ops : FloatOps) (sample : ℤ → Time → Answer ResourceSnapshot) where
  -- `again` is what a second reading of the system would give.
  unfoldable pub report_system :
      ResourceCache × Answer SystemResources
      → SystemReadings
      → ℤ
      → (Monitors → Monitors)
      → MonitorClock
      → List Line
  report_system (cache, error e) again pid sleep c = failed "GetSystemResources" ∷ []
  report_system (cache, ok sys) again pid sleep c =
      line "GetSystemResources"
        (ltb_ℤ (pos 0) sys.total_cpu_cores && ltb_ℤ (pos 0) sys.total_memory_mb)
      ∷ line "IsResourceAvailable"
          (is_resource_available ops cache any_size again c.asked_again c.filled_again).1
      ∷ sample_line (sample pid c.sampled)
      ∷ report_monitoring pid sleep

  unfoldable pub section4 :
      (first again : SystemReadings) → ℤ → (Monitors → Monitors) → MonitorClock → List Line
  section4 first again pid sleep c =
      passed "NewProcessResourceMonitor"
      ∷ report_system (get_system_resources ops new_resource_cache first c.asked c.filled) again pid
          sleep c
