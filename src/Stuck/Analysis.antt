-- ===== src/Stuck/Analysis.antt =====
-- AnalyzeTask (stuck_detector.go) on a task that is not nil: the source reads its type before any
-- test; `now` stands for each reading of the clock. A reason is as in the parent, a recommendation is a constructor for the key of its text.
use background_tasks.Base.{
  ◌≡◌, ℤ, pos, ltb_ℤ, eqb_ℤ, Bool, true, false, not, ◌&&◌, ◌||◌, Option, none, some, List, [], ◌∷◌,
  ◌++◌, Time, Duration, arith, if◌then◌else◌, is_some, since, ◌⊎◌, ◌↔◌,
}
use background_tasks.Task.{BackgroundTask, Models, Float64}
use background_tasks.Float.{FloatOps}
use background_tasks.Stuck.{
  ResourceSnapshot, Reason, DefaultStuckDetector, get_stuck_threshold, is_stuck,
  check_heartbeat_timeout, effective_threshold,
}

pub record HeartbeatStatus : Type 0 where
  pub last_heartbeat : Option Time
  pub time_since_heartbeat : Duration
  pub threshold : Duration
  pub is_stale : Bool

pub record ResourceStatus : Type 0 where
  pub cpu_percent : Float64
  pub memory_percent : Float64
  pub memory_bytes : ℤ
  pub open_fds : ℤ
  pub thread_count : ℤ
  pub is_exhausted : Bool

pub record ActivityStatus : Type 0 where
  pub has_cpu_activity : Bool
  pub has_io_activity : Bool
  pub has_net_activity : Bool
  pub io_read_bytes : ℤ
  pub io_write_bytes : ℤ
  pub net_connections : ℤ

pub data Recommendation : Type 0 where
  increase_memory check_fd_leaks cancel_restart check_deadlock : Recommendation

pub record StuckAnalysis : Type 0 where
  pub reason : Option Reason  -- IsStuck and Reason
  pub heartbeat_status : HeartbeatStatus
  pub resource_status : ResourceStatus
  pub activity_status : ActivityStatus
  pub recommendations : List Recommendation

abbrev heartbeat_status_of : Models → Duration → BackgroundTask → Time → HeartbeatStatus
heartbeat_status_of m threshold task now = elim task.last_heartbeat [
  | none ↦ record {
    last_heartbeat = none;
    time_since_heartbeat = pos 0;
    threshold = threshold;
    is_stale = true;
  }
  | some beat ↦ record {
    last_heartbeat = some beat;
    time_since_heartbeat = since now beat;
    threshold = threshold;
    is_stale = m.has_stale_heartbeat task threshold now;
  }
]

abbrev recommend : Bool → Recommendation → List Recommendation
recommend b r = if b then r ∷ [] else []

abbrev changed : ℤ → ℤ → Bool
changed a b = not (eqb_ℤ a b)

module _ (ops : FloatOps) where
  abbrev no_resources : ResourceStatus
  no_resources = record {
    cpu_percent = ops.lit 0 0;
    memory_percent = ops.lit 0 0;
    memory_bytes = pos 0;
    open_fds = pos 0;
    thread_count = pos 0;
    is_exhausted = false;
  }

  abbrev pub short_of_memory : ResourceSnapshot → Bool
  short_of_memory s = ops.lt (ops.lit 90 0) s.memory_percent

  abbrev pub short_of_fds : ResourceSnapshot → Bool
  short_of_fds s = ltb_ℤ (pos 10000) s.open_fds

  abbrev pub resource_status_of : List ResourceSnapshot → ResourceStatus
  resource_status_of [] = no_resources
  resource_status_of (s ∷ rest) = record {
    cpu_percent = s.cpu_percent;
    memory_percent = s.memory_percent;
    memory_bytes = s.memory_rss_bytes;
    open_fds = s.open_fds;
    thread_count = s.thread_count;
    is_exhausted = short_of_memory s || short_of_fds s;
  }

  abbrev pub exhaustion_advice : List ResourceSnapshot → List Recommendation
  exhaustion_advice [] = []
  exhaustion_advice (s ∷ rest) =
      recommend (short_of_memory s) increase_memory ++ recommend (short_of_fds s) check_fd_leaks

  abbrev io_changed : ResourceSnapshot → List ResourceSnapshot → Bool
  io_changed s [] = false
  io_changed s (prev ∷ _) =
      changed s.io_read_bytes prev.io_read_bytes || changed s.io_write_bytes prev.io_write_bytes

  abbrev net_changed : ResourceSnapshot → List ResourceSnapshot → Bool
  net_changed s [] = false
  net_changed s (prev ∷ _) =
      changed s.net_bytes_sent prev.net_bytes_sent || changed s.net_bytes_recv prev.net_bytes_recv

  abbrev pub activity_status_of : List ResourceSnapshot → ActivityStatus
  activity_status_of [] = record {
    has_cpu_activity = false;
    has_io_activity = false;
    has_net_activity = false;
    io_read_bytes = pos 0;
    io_write_bytes = pos 0;
    net_connections = pos 0;
  }
  activity_status_of (s ∷ rest) = record {
    has_cpu_activity = ops.lt (ops.lit 1 1) s.cpu_percent;
    has_io_activity = io_changed s rest;
    has_net_activity = net_changed s rest;
    io_read_bytes = s.io_read_bytes;
    io_write_bytes = s.io_write_bytes;
    net_connections = s.net_connections;
  }

  unfoldable pub analyze_task :
      Models → DefaultStuckDetector → BackgroundTask → List ResourceSnapshot → Time → StuckAnalysis
  analyze_task m d task snaps now =
      let beat = heartbeat_status_of m (get_stuck_threshold d task.task_type) task now in
      let activity = activity_status_of snaps in
      let verdict = is_stuck ops m d (some task) snaps now in
      record {
        reason = verdict;
        heartbeat_status = beat;
        resource_status = resource_status_of snaps;
        activity_status = activity;
        recommendations =
            exhaustion_advice snaps
            ++ recommend (is_some verdict && beat.is_stale) cancel_restart
            ++ recommend
                (is_some verdict && not activity.has_cpu_activity && not activity.has_io_activity)
                check_deadlock;
      }

  abbrev pub Advised : Recommendation → List Recommendation → Type 0
  Advised r [] = ⊥
  Advised r (q ∷ qs) = (q ≡ r) ⊎ Advised r qs

  -- The analysis of a task gives the verdict of IsStuck, and its advice goes with what it reports:
  -- to cancel and restart exactly for a stuck task that is reported as stale, to look for a
  -- deadlock exactly for a stuck task with no activity reported, and a shortage is advised upon
  -- exactly when the resources are reported exhausted.
  pub analyze_task_lem :
      (m : Models) (d : DefaultStuckDetector) (task : BackgroundTask)
      (snaps : List ResourceSnapshot) (now : Time)
      → let a = analyze_task m d task snaps now in
        let stuck = is_stuck ops m d (some task) snaps now in
        (a.reason ≡ stuck)
        × (Advised cancel_restart a.recommendations
            ↔ (is_some stuck ≡ true) × (a.heartbeat_status.is_stale ≡ true))
        × (Advised check_deadlock a.recommendations
            ↔ (is_some stuck ≡ true)
              × (a.activity_status.has_cpu_activity ≡ false)
              × (a.activity_status.has_io_activity ≡ false))
        × ((Advised increase_memory a.recommendations ⊎ Advised check_fd_leaks a.recommendations)
            ↔ (a.resource_status.is_exhausted ≡ true))
  unfolding analyze_task
  analyze_task_lem m d task [] now = ground arith
  analyze_task_lem m d task (s ∷ rest) now = ground arith

  -- The staleness that is reported is measured by the threshold of the task's type: a task that is
  -- stuck by the threshold of its own configuration, and not by that of its type, is reported as
  -- not stale.
  pub own_threshold_not_reported :
      (m : Models) (d : DefaultStuckDetector) (task : BackgroundTask)
      (snaps : List ResourceSnapshot) (now beat : Time)
      → task.config.endless ≡ false
      → task.last_heartbeat ≡ some beat
      → eqb_ℤ (get_stuck_threshold d task.task_type) (pos 0) ≡ false
      → m.has_stale_heartbeat task
          (effective_threshold (get_stuck_threshold d task.task_type) task)
          now
        ≡ true
      → m.has_stale_heartbeat task (get_stuck_threshold d task.task_type) now ≡ false
      → (is_some (analyze_task m d task snaps now).reason ≡ true)
        × ((analyze_task m d task snaps now).heartbeat_status.is_stale ≡ false)
  unfolding analyze_task is_stuck check_heartbeat_timeout
  own_threshold_not_reported m d task snaps now beat e b nz old fresh = ground arith
