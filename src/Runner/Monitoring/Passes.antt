-- ===== src/Runner/Monitoring/Passes.antt =====
-- What the fourth section of the challenge runner prints (challenges/runner/main.go).
use background_tasks.Base.{
  lookup, ◌+◌, ◌*◌, ◌<◌, ◌≡◌, refl, ap, ℤ, pos, ltb_ℤ, ◌<ℤ◌, ◌&&◌, not, true, some, [], ◌∷◌, Time,
  second, since, arith,
}
use background_tasks.Float.{FloatOps}
use background_tasks.Pool.Scale.{SystemResources}
use background_tasks.Postgres.{Answer, ok}
use background_tasks.Resources.{
  SystemReadings, new_resource_cache, get_system_resources, is_resource_available,
}
use background_tasks.Resources.Monitors.{Monitors, start_monitoring, Reach, start, next, starts}
use background_tasks.Resources.Monitors.Laws.{Reach-IsConsistent, stop_is_done}
use background_tasks.Stuck.{ResourceSnapshot}
use background_tasks.Runner.Queueing.{passed, line, any_size}
use background_tasks.Runner.Monitoring.{
  MonitorClock, watched_id, tenth_of_a_second, stopped_lines, report_monitoring, report_system,
  section4,
}

module _ (ops : FloatOps) (sample : ℤ → Time → Answer ResourceSnapshot)
    (sleep : Monitors → Monitors) where
  monitoring_passes :
      (pid : ℤ)
      → ((s : Monitors) → Reach sample s → Reach sample (sleep s))
      → report_monitoring pid sleep
        ≡ passed "StartMonitoring" ∷ passed "GetLatestSnapshot" ∷ passed "StopMonitoring" ∷ []
  unfolding report_monitoring start_monitoring lookup
  monitoring_passes pid goes_on =
      let reach = goes_on _ (next (start true) (starts watched_id pid tenth_of_a_second)) in
      ap (λ end. passed "StartMonitoring" ∷ passed "GetLatestSnapshot" ∷ stopped_lines end)
        (stop_is_done sample _ watched_id (Reach-IsConsistent sample reach))

  -- The answer of a monitor whose cache was filled less than two seconds before.
  cached_verdict :
      (again : SystemReadings) (c : MonitorClock) (sys : SystemResources)
      → c.asked_again < c.filled + 2 * second
      → (is_resource_available ops
          (record new_resource_cache { cached_resources = some sys; cache_time = c.filled })
          any_size
          again
          c.asked_again
          c.filled_again).1
        ≡ (not (ops.lt (ops.of_int (pos 90)) sys.cpu_load_percent)
            && not (ops.lt (ops.of_int (pos 90)) sys.memory_used_percent))
  unfolding is_resource_available get_system_resources
  cached_verdict again c sys soon =
      let fresh : ltb_ℤ (since c.asked_again c.filled) (pos (2 * second)) ≡ true = ground arith in
      rw (fresh, is_resource_available, get_system_resources) refl

  first_answer :
      (first : SystemReadings) (c : MonitorClock) (sys : SystemResources)
      → (get_system_resources ops new_resource_cache first c.asked c.filled).1 ≡ ok sys
      → get_system_resources ops new_resource_cache first c.asked c.filled
        ≡ (record new_resource_cache { cached_resources = some sys; cache_time = c.filled }, ok sys)
  unfolding get_system_resources
  first_answer first c sys known = ground arith

  -- The fourth section passes each check but one, whatever the goroutines of the monitor do
  -- meanwhile, if the first reading of the system succeeds and shows a processor and a megabyte of
  -- memory, and the process can be sampled. The one is that of IsResourceAvailable, for which
  -- nothing is asked: within two seconds it passes exactly if neither the load of the processor nor
  -- the use of the memory is above 90 percent.
  pub section4_lem :
      (first again : SystemReadings) (pid : ℤ) (c : MonitorClock) (sys : SystemResources)
      (snapshot : ResourceSnapshot)
      → (get_system_resources ops new_resource_cache first c.asked c.filled).1 ≡ ok sys
      → pos 0 <ℤ sys.total_cpu_cores
      → pos 0 <ℤ sys.total_memory_mb
      → c.asked_again < c.filled + 2 * second
      → sample pid c.sampled ≡ ok snapshot
      → ((s : Monitors) → Reach sample s → Reach sample (sleep s))
      → section4 ops sample first again pid sleep c
        ≡ passed "NewProcessResourceMonitor"
          ∷ passed "GetSystemResources"
          ∷ line "IsResourceAvailable" (
              not (ops.lt (ops.of_int (pos 90)) sys.cpu_load_percent)
              && not (ops.lt (ops.of_int (pos 90)) sys.memory_used_percent))
          ∷ passed "GetProcessResources"
          ∷ passed "StartMonitoring"
          ∷ passed "GetLatestSnapshot"
          ∷ passed "StopMonitoring"
          ∷ []
  unfolding section4 report_system
  section4_lem first again pid c sys snapshot known cores memory soon sampled goes_on =
      let enough : (ltb_ℤ (pos 0) sys.total_cpu_cores && ltb_ℤ (pos 0) sys.total_memory_mb) ≡ true =
        ground arith in
      rw (first_answer first c sys known) (
        rw enough (
          rw (cached_verdict again c sys soon)
            (rw sampled (rw (monitoring_passes pid goes_on) refl))))
