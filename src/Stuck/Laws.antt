-- ===== src/Stuck/Laws.antt =====
-- What the verdict of DefaultStuckDetector.IsStuck means (stuck_detector.go).
use background_tasks.Base.{
  if◌then◌else◌, str_eq, lookup, ◌<◌, is_some, not, ◌&&◌, ◌||◌, ◌≡◌, refl, ◌⊎◌, inl, inr, pos, true,
  false, none, some, List, String, Time, Duration, arith, length, lookup-insert, eq_iff,
}
use background_tasks.Task.{BackgroundTask, Models}
use background_tasks.Float.{FloatOps}
use background_tasks.Stuck.{
  ResourceSnapshot, Reason, DefaultStuckDetector, get_stuck_threshold, set_threshold,
  check_heartbeat_timeout, is_process_frozen, check_resource_exhaustion, is_io_starved,
  is_network_hung, has_memory_leak, is_endless_task_stuck, snapshot_reason, is_stuck,
  exceeded_deadline,
}
use background_tasks.Stuck.Causes.{Cause, snapshots_sound, heartbeat_sound, endless_sound}

-- A threshold that is set is read back, also by the types without an entry if it is that of
-- "default"; every other type reads what it read before.
pub get-set_threshold :
    (d : DefaultStuckDetector) (k j : String) (t : Duration)
    → get_stuck_threshold (set_threshold d k t) j ≡ (
        if str_eq k j || (str_eq k "default" && not (is_some (lookup j d.thresholds)))
        then t
        else get_stuck_threshold d j)
unfolding get_stuck_threshold set_threshold
get-set_threshold d k j t = ground (
  arith,
  lookup-insert k j t d.thresholds,
  lookup-insert k "default" t d.thresholds,
  eq_iff k j,
  eq_iff k "default",
)

pub threshold_read_back :
    (d : DefaultStuckDetector) (k : String) (t : Duration)
    → get_stuck_threshold (set_threshold d k t) k ≡ t
threshold_read_back d k t = ground (arith, get-set_threshold d k k t, eq_iff k k)

-- A type whose threshold is set to 0 gets no heartbeat alarm, also when the configuration of the
-- task asks for a threshold of its own.
pub heartbeat_disabled :
    (m : Models) (d : DefaultStuckDetector) (task : BackgroundTask) (now : Time)
    → check_heartbeat_timeout m (set_threshold d task.task_type (pos 0)) task now ≡ none
unfolding check_heartbeat_timeout
heartbeat_disabled m d task now = rw (threshold_read_back d task.task_type (pos 0)) refl

module _ (ops : FloatOps) (m : Models) (d : DefaultStuckDetector) (task : BackgroundTask)
    (now : Time) where
  stuck_cases :
      (snaps : List ResourceSnapshot) (r : Reason)
      → is_stuck ops m d (some task) snaps now ≡ some r
      → ((task.config.endless ≡ true) × (is_endless_task_stuck ops snaps ≡ some r))
        ⊎ ((task.config.endless ≡ false)
            × ((check_heartbeat_timeout m d task now ≡ some r)
                ⊎ ((r ≡ exceeded_deadline) × (m.is_overdue task now ≡ true))
                ⊎ (snapshot_reason ops snaps ≡ some r)))
  unfolding is_stuck
  stuck_cases snaps r h = ground arith

  -- A task is called stuck only for a cause: whatever reason IsStuck gives, what the reason says was
  -- seen. An endless task is stuck only as a zombie, out of memory or idle over five snapshots; any
  -- other task only when its heartbeat is stale under the threshold named in the reason, when it is
  -- overdue, or when three snapshots show the symptom: three of the newest five idle and the
  -- processor time at rest, no input or output, silent connections, the newest out of memory, file
  -- descriptors or threads, or memory that grows over five.
  pub is_stuck_sound :
      (snaps : List ResourceSnapshot) (r : Reason)
      → is_stuck ops m d (some task) snaps now ≡ some r
      → Cause ops m d task now snaps r
  is_stuck_sound snaps r h = elim (stuck_cases snaps r h) [
    | inl (e, a) ↦ endless_sound ops m d task now snaps r e a
    | inr (e, inl a) ↦ heartbeat_sound ops m d task now snaps r e a
    | inr (e, inr (inl (q, a))) ↦ rw q (e, a)
    | inr (e, inr (inr a)) ↦ snapshots_sound ops m d task now snaps r e a
  ]

  -- A task that is not called stuck shows none of the symptoms: the heartbeat raises no alarm, the
  -- deadline is not past, and three snapshots or more show no frozen process, no exhaustion, no
  -- starvation, no hung connection and no leak.
  pub not_stuck_clear :
      (snaps : List ResourceSnapshot)
      → task.config.endless ≡ false
      → is_stuck ops m d (some task) snaps now ≡ none
      → (check_heartbeat_timeout m d task now ≡ none)
        × (m.is_overdue task now ≡ false)
        × ((length snaps < 3)
            ⊎ ((is_process_frozen ops snaps ≡ false)
                × (check_resource_exhaustion ops snaps ≡ none)
                × (is_io_starved ops snaps ≡ false)
                × (is_network_hung ops snaps ≡ false)
                × (has_memory_leak ops snaps ≡ false)))
  unfolding is_stuck snapshot_reason
  not_stuck_clear snaps e h = ground arith
