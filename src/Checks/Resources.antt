-- ===== src/Checks/Resources.antt =====
-- ProcessResourceMonitor: the theorems at concrete inputs.
use background_tasks.Base.{
  ◌*◌, ◌≡◌, refl, ◌⊎◌, inl, ◌↔◌, ℤ, pos, ◌<ℤ◌, true, some, [], ◌∷◌, Time, second, since, lookup,
  insert, delete,
}
use background_tasks.Task.{ResourceRequirements}
use background_tasks.Pool.Scale.{SystemResources}
use background_tasks.Postgres.{Answer, ok, failed}
use background_tasks.Stuck.{ResourceSnapshot}
use background_tasks.Resources.{
  SystemReadings, MemoryInfo, ResourceCache, new_resource_cache, get_system_resources, read_system,
  resources_of, is_resource_available,
}
use background_tasks.Resources.Recent.{begin, asked, ReadIn, get_system_resources_recent}
use background_tasks.Resources.Available.{Suffices, is_resource_available_iff}
use background_tasks.Resources.Process.{get_process_resources}
use background_tasks.Resources.Monitors.{
  Monitors, ProcessMonitor, new_monitors, start_monitoring, stop_monitoring, get_latest_snapshot,
  Reach, start, next, starts, begins, ticks, done, not_active, new_monitor, begin_loop,
  write_monitor, tick, set_at, close_monitor,
}
use background_tasks.Resources.Monitors.Consistent.{IsConsistent}
use background_tasks.Resources.Monitors.Laws.{Reach-IsConsistent, stop_monitoring_lem}
use background_tasks.Checks.Samples.{sample_floats, no_limits}

abbrev memory : MemoryInfo
memory = record { total = 17179869184; available = 8589934592; used_percent = 50000 }

abbrev readings : SystemReadings
readings = record {
  cpu_percent = ok (25000 ∷ []);
  cpu_counts = failed "no counts";
  num_cpu = pos 8;
  memory = ok memory;
  disk_used_percent = failed "no disk";
  load = failed "no load";
}

abbrev cache1 : ResourceCache
cache1 = (get_system_resources sample_floats new_resource_cache readings 100 101).0

get_system_resources_recent_example :
    (read_system sample_floats readings
      ≡ ok (resources_of sample_floats readings (25000 ∷ []) memory))
    ⊎ ((at : Time) × ReadIn sample_floats
          ((readings, 101) ∷ [])
          (resources_of sample_floats readings (25000 ∷ []) memory)
          at
        × (since 200 at <ℤ pos (2 * second)))
unfolding get_system_resources read_system
get_system_resources_recent_example =
    get_system_resources_recent sample_floats {c = cache1} {c' = cache1} readings 200 201
      (resources_of sample_floats readings (25000 ∷ []) memory) (asked begin readings 100 101) refl

abbrev wants_two : ResourceRequirements
wants_two = record no_limits { cpu_cores = pos 2; memory_mb = pos 1024 }

is_resource_available_iff_example :
    ((is_resource_available sample_floats cache1 wants_two readings 200 201).1 ≡ true) ↔ (
      (s : SystemResources) × ((get_system_resources sample_floats cache1 readings 200 201).1
        ≡ ok s)
      × Suffices sample_floats s wants_two)
is_resource_available_iff_example =
    is_resource_available_iff sample_floats cache1 wants_two readings 200 201

available_run : (is_resource_available sample_floats cache1 wants_two readings 200 201).1 ≡ true
unfolding is_resource_available get_system_resources read_system
available_run = refl

-- Every process can be read, and nothing of it but the load.
abbrev sample : ℤ → Time → Answer ResourceSnapshot
sample pid now =
    get_process_resources 0
      (λ p. ok (record {
        cpu_percent = ok 5000;
        cpu_times = failed "denied";
        memory = ok (4096, 8192);
        memory_percent = failed "denied";
        io_counters = failed "denied";
        connections = failed "denied";
        net = failed "denied";
        open_files = failed "denied";
        num_fds = failed "denied";
        num_threads = ok (pos 3);
        status = failed "denied";
      }))
      pid now

abbrev m0 : Monitors
m0 = new_monitors true

abbrev m1 : Monitors
m1 = (start_monitoring m0 "t1" (pos 77) (pos second)).0

abbrev pm1 : ProcessMonitor
pm1 = new_monitor "t1" (pos 77) (pos second)

abbrev m2 : Monitors
m2 = write_monitor m1 0 (begin_loop pm1)

abbrev m3 : Monitors
m3 = tick m2 0 (begin_loop pm1) (sample (pos 77) 500)

reach3 : Reach sample m3
unfolding start_monitoring set_at lookup insert
reach3 =
    next (next (next (start true) (starts "t1" (pos 77) (pos second))) (begins 0 pm1 refl refl))
      (ticks 0 (begin_loop pm1) 500 refl refl)

Reach-IsConsistent_example : IsConsistent m3
Reach-IsConsistent_example = Reach-IsConsistent sample reach3

abbrev taken : ResourceSnapshot
taken = record {
  task_id = "t1";
  sampled_at = 500;
  cpu_percent = 5000;
  cpu_user_time = 0;
  cpu_system_time = 0;
  memory_percent = 0;
  memory_rss_bytes = pos 4096;
  memory_vms_bytes = pos 8192;
  io_read_count = pos 0;
  io_write_count = pos 0;
  open_files = pos 0;
  open_fds = pos 0;
  thread_count = pos 3;
  io_read_bytes = pos 0;
  io_write_bytes = pos 0;
  net_connections = pos 0;
  net_bytes_sent = pos 0;
  net_bytes_recv = pos 0;
  process_state = "";
}

abbrev closed_one : ProcessMonitor
closed_one = record (begin_loop pm1) { stopped = true; last_snapshot = some taken }

stop_monitoring_lem_example :
    ((stop_monitoring m3 "t1").1 ≡ done)
    × (closed_one.stopped ≡ true)
    × (get_latest_snapshot (stop_monitoring m3 "t1").0 "t1" ≡ inl (not_active "t1"))
unfolding start_monitoring stop_monitoring close_monitor set_at lookup insert delete tick
    get_process_resources
stop_monitoring_lem_example = stop_monitoring_lem sample "t1" 0 closed_one reach3 refl refl
