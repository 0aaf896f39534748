-- ===== src/Stuck.antt =====
-- DefaultStuckDetector (stuck_detector.go). Snapshots come newest first. A reason is a constructor
-- for each text of the source, and the empty reason is `none`: i18n.Tr, which renders some of them,
-- falls back to the id of the message where its text would be empty. A reason has the values as they
-- are before they are rounded or printed. `now` is the instant of the call.
pub mod Symptoms
pub mod Causes
pub mod Laws
pub mod Analysis
pub mod Config
use background_tasks.Base.{
  ℕ, zero, suc, ◌+◌, ◌-◌, ◌*◌, ◌≡◌, ℤ, pos, ◌+ℤ◌, ◌-ℤ◌, ltb_ℤ, eqb_ℤ, Bool, true, false, not, ◌&&◌,
  ◌||◌, Option, none, some, List, [], ◌∷◌, ◌++◌, String, Time, Duration, second, seconds, length,
  take, ltb, leb, str_eq, if◌then◌else◌, lookup, insert, since, min,
}
use background_tasks.Task.{BackgroundTask, Models, Float64}
use background_tasks.Float.{FloatOps}

-- The fields of models.ResourceSnapshot that the source uses.
pub record ResourceSnapshot : Type 0 where
  pub task_id : String
  pub sampled_at : Time
  pub cpu_percent : Float64
  pub cpu_user_time : Float64
  pub cpu_system_time : Float64
  pub memory_percent : Float64
  pub memory_rss_bytes : ℤ
  pub memory_vms_bytes : ℤ
  pub io_read_count : ℤ
  pub io_write_count : ℤ
  pub open_files : ℤ
  pub open_fds : ℤ
  pub thread_count : ℤ
  pub io_read_bytes : ℤ
  pub io_write_bytes : ℤ
  pub net_connections : ℤ
  pub net_bytes_sent : ℤ
  pub net_bytes_recv : ℤ
  pub process_state : String

pub data Reason : Type 0 where
  no_heartbeat_ever : Duration → Reason
  no_heartbeat_for : Duration → Duration → Reason
  exceeded_deadline process_frozen io_starved network_hung memory_leak : Reason
  memory_exhaustion : Float64 → Reason
  fd_exhaustion excessive_threads : ℤ → Reason
  zombie_state critical_memory no_activity : Reason

pub record DefaultStuckDetector : Type 0 where
  pub thresholds : List (String × Duration)

abbrev minutes : ℕ → Duration
minutes n = pos (n * (60 * second))

abbrev pub new_default_stuck_detector : DefaultStuckDetector
new_default_stuck_detector = record {
  thresholds =
      ("default", minutes 5)
      ∷ ("command", minutes 3)
      ∷ ("llm_call", minutes 3)
      ∷ ("debate", minutes 10)
      ∷ ("embedding", minutes 2)
      ∷ ("endless", pos 0)
      ∷ [];
}

abbrev or_zero : Option Duration → Duration
or_zero none = pos 0
or_zero (some d) = d

unfoldable pub get_stuck_threshold : DefaultStuckDetector → String → Duration
get_stuck_threshold d task_type = elim (lookup task_type d.thresholds) [
  | some t ↦ t
  | none ↦ or_zero (lookup "default" d.thresholds)
]

unfoldable pub set_threshold : DefaultStuckDetector → String → Duration → DefaultStuckDetector
set_threshold d task_type t = record d { thresholds = insert task_type t d.thresholds }

-- The threshold that the heartbeat is held against.
abbrev pub effective_threshold : Duration → BackgroundTask → Duration
effective_threshold threshold task =
    if ltb_ℤ (pos 0) task.config.stuck_threshold_secs
    then seconds task.config.stuck_threshold_secs
    else threshold

abbrev pub heartbeat_reason : Option Time → Duration → Time → Reason
heartbeat_reason none threshold now = no_heartbeat_ever threshold
heartbeat_reason (some beat) threshold now = no_heartbeat_for (since now beat) threshold

unfoldable pub check_heartbeat_timeout :
    Models → DefaultStuckDetector → BackgroundTask → Time → Option Reason
check_heartbeat_timeout m d task now =
    let threshold = get_stuck_threshold d task.task_type in
    let used = effective_threshold threshold task in
    if eqb_ℤ threshold (pos 0)
    then none
    else if m.has_stale_heartbeat task used now
    then some (heartbeat_reason task.last_heartbeat used now)
    else none

-- snapshots[i], for an index that is in range.
abbrev pub at : ResourceSnapshot → List ResourceSnapshot → ℕ → ResourceSnapshot
at s rest zero = s
at s [] (suc i) = s
at s (r ∷ rest) (suc i) = at r rest i

abbrev pub last : ResourceSnapshot → List ResourceSnapshot → ResourceSnapshot
last s rest = at s rest (length rest)

abbrev pub min3 : ℕ → ℕ → ℕ
min3 a b = if ltb a b then a else b

module _ (ops : FloatOps) where
  unfoldable pub count_idle : List ResourceSnapshot → ℕ
  count_idle [] = 0
  count_idle (s ∷ rest) =
      let n = count_idle rest in if ops.lt s.cpu_percent (ops.lit 1 1) then suc n else n

  abbrev pub cpu_time : ResourceSnapshot → Float64
  cpu_time s = ops.add s.cpu_user_time s.cpu_system_time

  unfoldable pub is_process_frozen : List ResourceSnapshot → Bool
  is_process_frozen [] = false
  is_process_frozen (s ∷ rest) =
      let n = suc (length rest) in
      if ltb n 3
      then false
      else if ltb (count_idle (take (min3 5 n) (s ∷ rest))) 3
      then false
      else not (ops.lt (ops.lit 1 2) (ops.sub (cpu_time s) (cpu_time (last s rest))))

  unfoldable pub check_resource_exhaustion : List ResourceSnapshot → Option Reason
  check_resource_exhaustion [] = none
  check_resource_exhaustion (s ∷ rest) =
      if ops.lt (ops.lit 95 0) s.memory_percent
      then some (memory_exhaustion s.memory_percent)
      else if ltb_ℤ (pos 10000) s.open_fds
      then some (fd_exhaustion s.open_fds)
      else if ltb_ℤ (pos 1000) s.thread_count
      then some (excessive_threads s.thread_count)
      else none

  -- The sums of byte counts are in ℤ: for counts in 0..2^63-1 such a sum lies between -2^64 and 2^64,
  -- so it is 0 exactly when the int64 sum, which wraps around, is 0.
  unfoldable pub is_io_starved : List ResourceSnapshot → Bool
  is_io_starved [] = false
  is_io_starved (s ∷ rest) =
      let n = suc (length rest) in
      let oldest = at s rest (min3 3 (n - 1)) in
      if ltb n 3
      then false
      else eqb_ℤ
          ((s.io_read_bytes -ℤ oldest.io_read_bytes) +ℤ (s.io_write_bytes -ℤ oldest.io_write_bytes))
          (pos 0)
        && ops.lt s.cpu_percent (ops.lit 10 1)
        && ops.lt (ops.lit 0 0) s.cpu_percent

  unfoldable pub is_network_hung : List ResourceSnapshot → Bool
  is_network_hung [] = false
  is_network_hung (s ∷ rest) =
      let n = suc (length rest) in
      let oldest = at s rest (min3 3 (n - 1)) in
      if ltb n 3
      then false
      else ltb_ℤ (pos 0) s.net_connections
        && eqb_ℤ
            ((s.net_bytes_sent -ℤ oldest.net_bytes_sent)
              +ℤ (s.net_bytes_recv -ℤ oldest.net_bytes_recv))
            (pos 0)
        && ops.lt s.cpu_percent (ops.lit 10 1)

  -- How often a snapshot uses more memory than the one before it in time.
  unfoldable pub count_increasing : ResourceSnapshot → List ResourceSnapshot → ℕ
  count_increasing s [] = 0
  count_increasing s (r ∷ rest) =
      let n = count_increasing r rest in
      if ltb_ℤ r.memory_rss_bytes s.memory_rss_bytes then suc n else n

  unfoldable pub has_memory_leak : List ResourceSnapshot → Bool
  has_memory_leak [] = false
  has_memory_leak (s ∷ rest) =
      let n = suc (length rest) in
      let oldest = last s rest in
      if ltb n 5
      then false
      else ops.lt (ops.lit 8 1)
          (ops.div (ops.of_int (pos (count_increasing s rest))) (ops.of_int (pos (n - 1))))
        && ltb_ℤ (pos 0) oldest.memory_rss_bytes
        && ops.lt (ops.lit 5 1) (
            ops.div (ops.of_int (s.memory_rss_bytes -ℤ oldest.memory_rss_bytes))
              (ops.of_int oldest.memory_rss_bytes))

  -- The loop over five snapshots: `prev` is the one before the current, in the list's order.
  unfoldable pub activity_from : ResourceSnapshot → ℕ → List ResourceSnapshot → Bool
  activity_from prev zero rest = false
  activity_from prev (suc k) [] = false
  activity_from prev (suc k) (s ∷ rest) =
      let later = activity_from s k rest in
      ops.lt (ops.lit 0 0) s.cpu_percent
      || not (eqb_ℤ s.io_read_bytes prev.io_read_bytes)
      || not (eqb_ℤ s.io_write_bytes prev.io_write_bytes)
      || later

  unfoldable pub is_endless_task_stuck : List ResourceSnapshot → Option Reason
  is_endless_task_stuck [] = none
  is_endless_task_stuck (s ∷ rest) =
      if str_eq s.process_state "zombie" || str_eq s.process_state "Z"
      then some zombie_state
      else if ops.lt (ops.lit 98 0) s.memory_percent
      then some critical_memory
      else if ltb (suc (length rest)) 5
      then none
      else if ops.lt (ops.lit 0 0) s.cpu_percent || activity_from s 4 rest
      then none
      else some no_activity

  -- The analysis of the snapshots in IsStuck.
  unfoldable pub snapshot_reason : List ResourceSnapshot → Option Reason
  snapshot_reason snaps =
      if ltb (length snaps) 3
      then none
      else if is_process_frozen snaps
      then some process_frozen
      else elim (check_resource_exhaustion snaps) [
        | some r ↦ some r
        | none ↦
            if is_io_starved snaps
            then some io_starved
            else if is_network_hung snaps
            then some network_hung
            else if has_memory_leak snaps
            then some memory_leak
            else none
      ]

  -- A nil task is never stuck.
  unfoldable pub is_stuck :
      Models
      → DefaultStuckDetector
      → Option BackgroundTask
      → List ResourceSnapshot
      → Time
      → Option Reason
  is_stuck m d none snaps now = none
  is_stuck m d (some task) snaps now =
      if task.config.endless
      then is_endless_task_stuck snaps
      else elim (check_heartbeat_timeout m d task now) [
        | some r ↦ some r
        | none ↦ if m.is_overdue task now then some exceeded_deadline else snapshot_reason snaps
      ]
