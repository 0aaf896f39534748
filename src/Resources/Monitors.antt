-- ===== src/Resources/Monitors.antt =====
-- StartMonitoring, StopMonitoring, GetLatestSnapshot and monitorLoop (resource_monitor.go). The
-- monitors stand in a list in the order in which they were made, and the map holds positions of that
-- list. The first three take the lock of the map, so each is one step; a loop is a goroutine, and a
-- round of it another step: it takes a sample, stores it and saves it.
pub mod Positions
pub mod Consistent
pub mod Laws
use background_tasks.Base.{
  ℕ, zero, suc, ◌≡◌, ℤ, pos, ltb_ℤ, ◌⊎◌, inl, inr, Bool, true, false, Option, none, some, List, [],
  ◌∷◌, ◌++◌, String, Duration, Time, lookup, insert, delete, length, get_elem?, if◌then◌else◌,
}
use background_tasks.Postgres.{Answer, ok, failed}
use background_tasks.Stuck.{ResourceSnapshot}

-- A ticker that is made with an interval that is not positive panics.
pub data Loop : Type 0 where
  spawned ticking returned crashed : Loop

pub record ProcessMonitor : Type 0 where
  pub task_id : String
  pub pid : ℤ
  pub interval : Duration
  pub stopped : Bool  -- stopChan is closed
  pub last_snapshot : Option ResourceSnapshot
  pub loop : Loop

-- `saved` are the snapshots that SaveResourceSnapshot was called with, the last first.
pub record Monitors : Type 0 where
  pub made : List ProcessMonitor
  pub monitors : List (String × ℕ)
  pub has_repository : Bool
  pub saved : List ResourceSnapshot

abbrev pub new_monitors : Bool → Monitors
new_monitors has_repository = record {
  made = [];
  monitors = [];
  has_repository = has_repository;
  saved = [];
}

pub data Failure : Type 0 where
  already_started not_active no_snapshot : String → Failure

unfoldable pub set_at : {A : Type 0} → ℕ → A → List A → List A
set_at i a [] = []
set_at zero a (x ∷ xs) = a ∷ xs
set_at (suc i) a (x ∷ xs) = x ∷ set_at i a xs

abbrev pub new_monitor : String → ℤ → Duration → ProcessMonitor
new_monitor task_id pid interval = record {
  task_id = task_id;
  pid = pid;
  interval = interval;
  stopped = false;
  last_snapshot = none;
  loop = spawned;
}

unfoldable pub start_monitoring : Monitors → String → ℤ → Duration → Monitors × Option Failure
start_monitoring s task_id pid interval = elim (lookup task_id s.monitors) [
  | some i ↦ (s, some (already_started task_id))
  | none ↦ (
    record s {
      made = s.made ++ new_monitor task_id pid interval ∷ [];
      monitors = insert task_id (length s.made) s.monitors;
    },
    none,
  )
]

-- How StopMonitoring ends: it always returns nil, unless it closes a closed channel.
pub data Stopped : Type 0 where
  done panicked : Stopped

unfoldable pub close_monitor : Monitors → String → ℕ → Option ProcessMonitor → Monitors × Stopped
close_monitor s task_id i none = (s, panicked)
close_monitor s task_id i (some pm) = if pm.stopped then (s, panicked) else (
  record s {
    made = set_at i (record pm { stopped = true }) s.made;
    monitors = delete task_id s.monitors;
  },
  done,
)

unfoldable pub stop_monitoring : Monitors → String → Monitors × Stopped
stop_monitoring s task_id = elim (lookup task_id s.monitors) [
  | none ↦ (s, done)
  | some i ↦ close_monitor s task_id i (get_elem? s.made i)
]

-- A position of the map always has its monitor; for another the answer would be `not_active`.
abbrev pub snapshot_in : String → Option ProcessMonitor → Failure ⊎ ResourceSnapshot
snapshot_in task_id none = inl (not_active task_id)
snapshot_in task_id (some pm) = elim pm.last_snapshot [
  | none ↦ inl (no_snapshot task_id)
  | some snapshot ↦ inr snapshot
]

unfoldable pub get_latest_snapshot : Monitors → String → Failure ⊎ ResourceSnapshot
get_latest_snapshot s task_id = elim (lookup task_id s.monitors) [
  | none ↦ inl (not_active task_id)
  | some i ↦ snapshot_in task_id (get_elem? s.made i)
]

abbrev pub write_monitor : Monitors → ℕ → ProcessMonitor → Monitors
write_monitor s i pm = record s { made = set_at i pm s.made }

-- The ticker is made.
abbrev pub begin_loop : ProcessMonitor → ProcessMonitor
begin_loop pm = record pm { loop = if ltb_ℤ (pos 0) pm.interval then ticking else crashed }

-- A tick whose sample is `answer`; an error of the repository is only logged.
unfoldable pub tick : Monitors → ℕ → ProcessMonitor → Answer ResourceSnapshot → Monitors
tick s i pm (failed e) = s
tick s i pm (ok sample) =
    let snapshot = record sample { task_id = pm.task_id } in
    let s' = write_monitor s i (record pm { last_snapshot = some snapshot }) in
    record s' { saved = if s.has_repository then snapshot ∷ s.saved else s.saved }

-- `sample` is GetProcessResources.
module _ (sample : ℤ → Time → Answer ResourceSnapshot) where
  pub data Step (s : Monitors) : Monitors → Type 0 where
    starts :
        (task_id : String) (pid : ℤ) (interval : Duration)
        → Step s (start_monitoring s task_id pid interval).0
    stops : (task_id : String) → Step s (stop_monitoring s task_id).0
    begins :
        (i : ℕ) (pm : ProcessMonitor)
        → get_elem? s.made i ≡ some pm
        → pm.loop ≡ spawned
        → Step s (write_monitor s i (begin_loop pm))
    -- Also after stopChan is closed, if the ticker is ready too.
    ticks :
        (i : ℕ) (pm : ProcessMonitor) (now : Time)
        → get_elem? s.made i ≡ some pm
        → pm.loop ≡ ticking
        → Step s (tick s i pm (sample pm.pid now))
    ends :
        (i : ℕ) (pm : ProcessMonitor)
        → get_elem? s.made i ≡ some pm
        → pm.loop ≡ ticking
        → pm.stopped ≡ true
        → Step s (write_monitor s i (record pm { loop = returned }))

  pub data Reach : Monitors → Type 0 where
    start : (has_repository : Bool) → Reach (new_monitors has_repository)
    next : {s s' : Monitors} → Reach s → Step s s' → Reach s'
