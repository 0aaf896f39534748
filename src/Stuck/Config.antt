-- ===== src/Stuck/Config.antt =====
-- StuckDetectorConfig (stuck_detector.go), which only the challenge runner reads; the detector itself
-- has its numbers written out.
use background_tasks.Base.{ℤ, pos, ◌*◌, Duration, second}
use background_tasks.Task.{Float64}
use background_tasks.Float.{FloatOps}

pub record StuckDetectorConfig : Type 0 where
  pub default_threshold : Duration
  pub cpu_activity_threshold : Float64
  pub memory_growth_threshold : Float64
  pub io_activity_threshold : ℤ
  pub min_snapshots_for_analysis : ℤ

abbrev pub default_stuck_detector_config : FloatOps → StuckDetectorConfig
default_stuck_detector_config ops = record {
  default_threshold = pos (300 * second);
  cpu_activity_threshold = ops.lit 1 1;
  memory_growth_threshold = ops.lit 5 1;
  io_activity_threshold = pos 1024;
  min_snapshots_for_analysis = pos 3;
}
