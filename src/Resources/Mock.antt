-- ===== src/Resources/Mock.antt =====
-- MockResourceMonitor (resource_monitor_test_helpers.go), which the Go tests put in the place of a
-- ProcessResourceMonitor. The map of the snapshots is a function. StartMonitoring, StopMonitoring and
-- SetResourceAvailable change nothing.
use background_tasks.Base.{
  ℕ, ◌*◌, ◌≡◌, ℤ, pos, eqb_ℤ, Bool, true, Option, none, some, String, Duration, Time, if◌then◌else◌,
  arith,
}
use background_tasks.Task.{Float64, ResourceRequirements}
use background_tasks.Float.{FloatOps}
use background_tasks.Pool.Scale.{SystemResources}
use background_tasks.Postgres.{Answer, ok}
use background_tasks.Stuck.{ResourceSnapshot}

pub record MockResourceMonitor : Type 0 where
  pub system_resources : SystemResources
  pub process_resources : ℤ → Option ResourceSnapshot

module _ (ops : FloatOps) where
  abbrev whole : ℕ → Float64
  whole n = ops.of_int (pos n)

  unfoldable pub new_mock_resource_monitor : MockResourceMonitor
  new_mock_resource_monitor = record {
    system_resources = record {
      total_cpu_cores = pos 8;
      available_cpu_cores = whole 6;
      total_memory_mb = pos 16384;
      available_memory_mb = pos 8192;
      cpu_load_percent = whole 25;
      memory_used_percent = whole 50;
      disk_used_percent = whole 0;
      load_avg_1 = whole 0;
      load_avg_5 = whole 0;
      load_avg_15 = whole 0;
    };
    process_resources = λ pid. none;
  }

  -- A snapshot with the zero value in every field but those of the mock.
  abbrev pub made_up : String → Float64 → Time → ResourceSnapshot
  made_up task_id memory_percent now = record {
    task_id = task_id;
    sampled_at = now;
    cpu_percent = whole 10;
    cpu_user_time = whole 0;
    cpu_system_time = whole 0;
    memory_percent = memory_percent;
    memory_rss_bytes = pos (100 * 1024 * 1024);
    memory_vms_bytes = pos 0;
    io_read_count = pos 0;
    io_write_count = pos 0;
    open_files = pos 0;
    open_fds = pos 0;
    thread_count = pos 0;
    io_read_bytes = pos 0;
    io_write_bytes = pos 0;
    net_connections = pos 0;
    net_bytes_sent = pos 0;
    net_bytes_recv = pos 0;
    process_state = "";
  }

  unfoldable pub mock_process_resources : MockResourceMonitor → ℤ → Time → Answer ResourceSnapshot
  mock_process_resources m pid now = elim (m.process_resources pid) [
    | some snapshot ↦ ok snapshot
    | none ↦ ok (made_up "" (whole 5) now)
  ]

  abbrev pub mock_latest_snapshot : String → Time → Answer ResourceSnapshot
  mock_latest_snapshot task_id now = ok (made_up task_id (whole 0) now)

abbrev pub mock_system_resources : MockResourceMonitor → Answer SystemResources
mock_system_resources m = ok m.system_resources

-- StartMonitoring; the state stays as it is.
abbrev pub mock_start_monitoring :
    MockResourceMonitor → String → ℤ → Duration → MockResourceMonitor × Option String
mock_start_monitoring m task_id pid interval = (m, none)

abbrev pub mock_stop_monitoring : MockResourceMonitor → String → MockResourceMonitor × Option String
mock_stop_monitoring m task_id = (m, none)

abbrev pub mock_resource_available : MockResourceMonitor → ResourceRequirements → Bool
mock_resource_available m req = true

abbrev pub set_resource_available : MockResourceMonitor → Bool → MockResourceMonitor
set_resource_available m available = m

abbrev pub set_system_resources : MockResourceMonitor → SystemResources → MockResourceMonitor
set_system_resources m resources = record m { system_resources = resources }

unfoldable pub set_process_resources :
    MockResourceMonitor → ℤ → ResourceSnapshot → MockResourceMonitor
set_process_resources m pid snapshot = record m {
  process_resources = λ other. if eqb_ℤ pid other then some snapshot else m.process_resources other;
}

-- A snapshot that is set is what GetProcessResources answers for its process; for the others it
-- answers what it answered before, also after the resources of the system are set.
mock_snapshot_read_back :
    (ops : FloatOps) (m : MockResourceMonitor) (pid other : ℤ) (snapshot : ResourceSnapshot)
    (resources : SystemResources) (now : Time)
    → mock_process_resources ops
        (set_system_resources (set_process_resources m pid snapshot) resources)
        other
        now
      ≡ (if eqb_ℤ pid other then ok snapshot else mock_process_resources ops m other now)
unfolding mock_process_resources set_process_resources
mock_snapshot_read_back ops m pid other snapshot resources now = ground arith
