-- ===== src/Checks/Stuck.antt =====
-- DefaultStuckDetector: runs, and the theorems at concrete inputs.
use background_tasks.Base.{◌≡◌, refl, pos, true, none, some, List, [], ◌∷◌, ℕ, ◌*◌, second, lookup}
use background_tasks.Task.{BackgroundTask, TaskPriority}
use background_tasks.Stuck.{
  ResourceSnapshot, new_default_stuck_detector, get_stuck_threshold, check_heartbeat_timeout,
  is_stuck, is_process_frozen, check_resource_exhaustion, is_io_starved, is_network_hung,
  has_memory_leak, is_endless_task_stuck, activity_from, no_activity, snapshot_reason, count_idle,
}
use background_tasks.Stuck.Causes.{Cause}
use background_tasks.Stuck.Laws.{is_stuck_sound}
use background_tasks.Checks.Samples.{sample_floats, sample_models, sample_task}

-- Progress of 5% CPU at time `t`, in thousandths.
abbrev snapshot : ℕ → ℕ → ResourceSnapshot
snapshot cpu t = record {
  cpu_percent = cpu;
  cpu_user_time = t;
  cpu_system_time = 0;
  memory_percent = 10000;
  memory_rss_bytes = pos 1000;
  open_fds = pos 12;
  thread_count = pos 4;
  task_id = "t1";
  sampled_at = 0;
  memory_vms_bytes = pos 0;
  io_read_count = pos 0;
  io_write_count = pos 0;
  open_files = pos 0;
  io_read_bytes = pos t;
  io_write_bytes = pos 0;
  net_connections = pos 0;
  net_bytes_sent = pos 0;
  net_bytes_recv = pos 0;
  process_state = "S";
}

abbrev busy_snapshots : List ResourceSnapshot
busy_snapshots = snapshot 5000 3000 ∷ snapshot 5000 2000 ∷ snapshot 5000 1000 ∷ []

abbrev idle_snapshots : List ResourceSnapshot
idle_snapshots = snapshot 0 7 ∷ snapshot 0 7 ∷ snapshot 0 7 ∷ snapshot 0 7 ∷ snapshot 0 7 ∷ []

abbrev endless_task : BackgroundTask
endless_task =
    let t = sample_task "e" TaskPriority.normal in
    record t { config = record t.config { endless = true } }

abbrev live_task : BackgroundTask
live_task = record (sample_task "l" TaskPriority.normal) { last_heartbeat = some (100 * second) }

abbrev impatient_task : BackgroundTask
impatient_task = record live_task {
  config = record live_task.config { stuck_threshold_secs = pos 20 };
}

idle_stuck :
    is_stuck sample_floats sample_models new_default_stuck_detector
      (some endless_task)
      idle_snapshots
      0
    ≡ some no_activity
unfolding is_stuck is_endless_task_stuck activity_from
idle_stuck = refl

is_stuck_sound_example :
    Cause sample_floats sample_models new_default_stuck_detector endless_task 0 idle_snapshots
      no_activity
is_stuck_sound_example =
    is_stuck_sound sample_floats sample_models new_default_stuck_detector endless_task 0
      idle_snapshots no_activity idle_stuck

live_not_stuck :
    is_stuck sample_floats sample_models new_default_stuck_detector
      (some live_task)
      busy_snapshots
      (110 * second)
    ≡ none
unfolding is_stuck check_heartbeat_timeout get_stuck_threshold lookup snapshot_reason
    is_process_frozen count_idle check_resource_exhaustion is_io_starved is_network_hung
    has_memory_leak
live_not_stuck = refl
