-- ===== src/Runner/Detecting/Passes.antt =====
-- The third section of the challenge runner prints no failure (challenges/runner/main.go).
use background_tasks.Base.{
  ◌+◌, ◌*◌, ◌≤◌, ◌≡◌, refl, ◌∙◌, ℤ, pos, negsuc, ltb_ℤ, ◌<ℤ◌, true, false, some, [], ◌∷◌, Time,
  Duration, second, seconds, since, add_time, is_some, if◌then◌else◌, arith,
}
use background_tasks.Task.{BackgroundTask, TaskConfig, Models}
use background_tasks.Float.{FloatOps}
use background_tasks.Stuck.{
  new_default_stuck_detector, effective_threshold, check_heartbeat_timeout, snapshot_reason,
  is_stuck,
}
use background_tasks.Stuck.Laws.{threshold_read_back}
use background_tasks.Runner.Queueing.{passed}
use background_tasks.Runner.Detecting.{
  DetectorClock, seven_minutes, minus_seconds, stale_task, recent_task, seven_minute_detector,
  report_detector, section3,
}

-- The heartbeat of half an hour ago is older than any threshold below half an hour.
stale_over :
    (secs : ℤ) (read checked : Time)
    → secs <ℤ pos 1800
    → 1800 * second ≤ read
    → read ≤ checked
    → ltb_ℤ
        (if ltb_ℤ (pos 0) secs then seconds secs else seven_minutes)
        (since checked (add_time read (minus_seconds 1800)))
      ≡ true
stale_over (pos n) read checked below past after = ground arith
stale_over (negsuc n) read checked below past after = ground arith

-- A heartbeat of the last second is not older than a threshold, which is one second at least.
fresh_under :
    (secs : ℤ) (read checked : Time)
    → checked ≤ read + second
    → ltb_ℤ (if ltb_ℤ (pos 0) secs then seconds secs else seven_minutes) (since checked read)
      ≡ false
fresh_under (pos n) read checked soon = ground arith
fresh_under (negsuc n) read checked soon = ground arith

module _ (ops : FloatOps) (m : Models) (config : TaskConfig) (c : DetectorClock) where
  stale_flagged :
      config.endless ≡ false
      → m.has_stale_heartbeat
          (stale_task ops m config c)
          (effective_threshold seven_minutes (stale_task ops m config c))
          c.stale_checked
        ≡ true
      → is_some (
          is_stuck ops m seven_minute_detector
            (some (stale_task ops m config c))
            []
            c.stale_checked)
        ≡ true
  unfolding is_stuck check_heartbeat_timeout
  stale_flagged finite old =
      rw (threshold_read_back new_default_stuck_detector "custom_type" seven_minutes)
        (rw old (rw finite refl))

  fresh_not_flagged :
      config.endless ≡ false
      → m.has_stale_heartbeat
          (recent_task ops m config c)
          (effective_threshold seven_minutes (recent_task ops m config c))
          c.fresh_checked
        ≡ false
      → m.is_overdue (recent_task ops m config c) c.fresh_checked ≡ false
      → is_some (
          is_stuck ops m seven_minute_detector
            (some (recent_task ops m config c))
            []
            c.fresh_checked)
        ≡ false
  unfolding is_stuck check_heartbeat_timeout snapshot_reason
  fresh_not_flagged finite young due =
      rw (threshold_read_back new_default_stuck_detector "custom_type" seven_minutes)
        (rw young (rw due (rw finite refl)))

  -- The third section prints no failure: all six checks pass, if a heartbeat is stale when more than
  -- the threshold lies behind it, the default configuration of a task is not endless and asks for a
  -- threshold below half an hour, the clock does not go back while the stale task is looked at, and
  -- the fresh task is looked at within a second, when it is not overdue.
  pub section3_passes :
      ((t : BackgroundTask) (beat : Time) (threshold : Duration) (now : Time)
        → t.last_heartbeat ≡ some beat
        → m.has_stale_heartbeat t threshold now ≡ ltb_ℤ threshold (since now beat))
      → config.endless ≡ false
      → config.stuck_threshold_secs <ℤ pos 1800
      → 1800 * second ≤ c.stale_read
      → c.stale_read ≤ c.stale_checked
      → c.fresh_checked ≤ c.fresh_read + second
      → m.is_overdue (recent_task ops m config c) c.fresh_checked ≡ false
      → section3 ops m config c
        ≡ passed "DefaultStuckDetectorConfig"
          ∷ passed "NewDefaultStuckDetector"
          ∷ passed "SetThreshold/GetStuckThreshold"
          ∷ passed "stale-heartbeat"
          ∷ passed "AnalyzeTask"
          ∷ passed "fresh-heartbeat"
          ∷ []
  unfolding section3 report_detector
  section3_passes law finite below past after soon due =
      rw (threshold_read_back new_default_stuck_detector "custom_type" seven_minutes) (
        rw
          (stale_flagged finite (
            law (stale_task ops m config c) _ _ _ refl
            ∙ stale_over config.stuck_threshold_secs c.stale_read c.stale_checked below past after))
          (rw
            (fresh_not_flagged finite
              (law (recent_task ops m config c) _ _ _ refl
                ∙ fresh_under config.stuck_threshold_secs c.fresh_read c.fresh_checked soon)
              due)
            refl))
