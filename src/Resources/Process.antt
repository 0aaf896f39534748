-- ===== src/Resources/Process.antt =====
-- GetProcessResources of ProcessResourceMonitor (resource_monitor.go). What gopsutil reads of a
-- process is a parameter; a value that it gives as nil is an error here.
use background_tasks.Base.{
  ℕ, suc, ◌-◌, ◌%◌, ◌^◌, ℤ, pos, negsuc, sub_ℕ, List, [], ◌∷◌, String, Time, ltb, if◌then◌else◌,
}
use background_tasks.Task.{Float64}
use background_tasks.Postgres.{Answer, ok, failed}
use background_tasks.Resources.{int64_of, or_else}
use background_tasks.Stuck.{ResourceSnapshot}

-- int32 of an int.
abbrev pub signed_32 : ℕ → ℤ
signed_32 n = if ltb n (2 ^ 31) then pos n else sub_ℕ n (2 ^ 32)

abbrev pub int32_of : ℤ → ℤ
int32_of (pos n) = signed_32 (n % 2 ^ 32)
int32_of (negsuc n) = signed_32 (2 ^ 32 - suc (n % 2 ^ 32))

pub record IoCounters : Type 0 where
  pub read_bytes : ℕ
  pub write_bytes : ℕ
  pub read_count : ℕ
  pub write_count : ℕ

pub record NetCounters : Type 0 where
  pub bytes_sent : ℕ
  pub bytes_recv : ℕ

-- Lists of which only the length is used are given by it.
pub record ProcessReadings : Type 0 where
  pub cpu_percent : Answer Float64
  pub cpu_times : Answer (Float64 × Float64)
  pub memory : Answer (ℕ × ℕ)
  pub memory_percent : Answer Float64
  pub io_counters : Answer IoCounters
  pub connections : Answer ℕ
  pub net : Answer (List NetCounters)
  pub open_files : Answer ℕ
  pub num_fds : Answer ℤ
  pub num_threads : Answer ℤ
  pub status : Answer (List String)

abbrev pub head_or : {A : Type 0} → A → List A → A
head_or a [] = a
head_or a (x ∷ xs) = x

-- The value of each reading that fails stays the zero value. `zero_float` is the float64 zero.
abbrev pub snapshot_of : Float64 → ProcessReadings → Time → ResourceSnapshot
snapshot_of zero_float r now =
    let times = or_else r.cpu_times (zero_float, zero_float) in
    let memory = or_else r.memory (0, 0) in
    let io =
      or_else r.io_counters
        (record { read_bytes = 0; write_bytes = 0; read_count = 0; write_count = 0 }) in
    let net = head_or (record { bytes_sent = 0; bytes_recv = 0 }) (or_else r.net []) in
    record {
      task_id = "";
      sampled_at = now;
      cpu_percent = or_else r.cpu_percent zero_float;
      cpu_user_time = times.0;
      cpu_system_time = times.1;
      memory_rss_bytes = int64_of memory.0;
      memory_vms_bytes = int64_of memory.1;
      memory_percent = or_else r.memory_percent zero_float;
      io_read_bytes = int64_of io.read_bytes;
      io_write_bytes = int64_of io.write_bytes;
      io_read_count = int64_of io.read_count;
      io_write_count = int64_of io.write_count;
      net_connections = pos (or_else r.connections 0);
      net_bytes_sent = int64_of net.bytes_sent;
      net_bytes_recv = int64_of net.bytes_recv;
      open_files = pos (or_else r.open_files 0);
      open_fds = or_else r.num_fds (pos 0);
      thread_count = or_else r.num_threads (pos 0);
      process_state = head_or "" (or_else r.status []);
    }

-- `find` finds a process by its number, and fails if there is none.
unfoldable pub get_process_resources :
    Float64 → (ℤ → Answer ProcessReadings) → ℤ → Time → Answer ResourceSnapshot
get_process_resources zero_float find pid now = elim (find (int32_of pid)) [
  | failed e ↦ failed e
  | ok r ↦ ok (snapshot_of zero_float r now)
]
