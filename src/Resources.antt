-- ===== src/Resources.antt =====
-- ProcessResourceMonitor (resource_monitor.go): the cached resources of the system. What gopsutil
-- reads is a parameter, the `SystemReadings` of one call. The pointer that a call returns is read and
-- not written by its caller.
pub mod Recent
pub mod Available
pub mod Process
pub mod Monitors
pub mod Mock
use background_tasks.Base.{
  ℕ, ◌*◌, ◌/◌, ◌^◌, ◌≡◌, ℤ, pos, sub_ℕ, ltb_ℤ, Bool, true, false, not, ◌&&◌, Option, none, some,
  List, [], ◌∷◌, String, Time, Duration, second, since, ltb, if◌then◌else◌,
}
use background_tasks.Task.{Float64, ResourceRequirements}
use background_tasks.Float.{FloatOps}
use background_tasks.Pool.Scale.{SystemResources}
use background_tasks.Postgres.{Answer, ok, failed}

-- int64 of a uint64.
abbrev pub int64_of : ℕ → ℤ
int64_of n = if ltb n (2 ^ 63) then pos n else sub_ℕ n (2 ^ 64)

-- The numbers of bytes are uint64.
pub record MemoryInfo : Type 0 where
  pub total : ℕ
  pub available : ℕ
  pub used_percent : Float64

pub record LoadAverage : Type 0 where
  pub load_1 : Float64
  pub load_5 : Float64
  pub load_15 : Float64

pub record SystemReadings : Type 0 where
  pub cpu_percent : Answer (List Float64)
  pub cpu_counts : Answer ℤ
  pub num_cpu : ℤ
  pub memory : Answer MemoryInfo
  pub disk_used_percent : Answer Float64
  pub load : Answer LoadAverage

-- The part of the monitor that GetSystemResources uses.
pub record ResourceCache : Type 0 where
  pub cached_resources : Option SystemResources
  pub cache_time : Time
  pub cache_ttl : Duration

abbrev pub new_resource_cache : ResourceCache
new_resource_cache = record {
  cached_resources = none;
  cache_time = 0;
  cache_ttl = pos (2 * second);
}

abbrev pub or_else : {A : Type 0} → Answer A → A → A
or_else (ok a) b = a
or_else (failed e) b = b

abbrev pub first_or : Float64 → List Float64 → Float64
first_or x0 [] = x0
first_or x0 (x ∷ xs) = x

module _ (ops : FloatOps) where
  abbrev pub zero_load : LoadAverage
  zero_load = record {
    load_1 = ops.of_int (pos 0);
    load_5 = ops.of_int (pos 0);
    load_15 = ops.of_int (pos 0);
  }

  abbrev pub resources_of : SystemReadings → List Float64 → MemoryInfo → SystemResources
  resources_of r percent mem =
      let cores = or_else r.cpu_counts r.num_cpu in
      let cpu_load = first_or (ops.of_int (pos 0)) percent in
      let load = or_else r.load zero_load in
      record {
        total_cpu_cores = cores;
        available_cpu_cores =
            ops.div (ops.mul (ops.of_int cores) (ops.sub (ops.of_int (pos 100)) cpu_load))
              (ops.of_int (pos 100));
        total_memory_mb = int64_of (mem.total / 1024 / 1024);
        available_memory_mb = int64_of (mem.available / 1024 / 1024);
        cpu_load_percent = cpu_load;
        memory_used_percent = mem.used_percent;
        disk_used_percent = or_else r.disk_used_percent (ops.of_int (pos 0));
        load_avg_1 = load.load_1;
        load_avg_5 = load.load_5;
        load_avg_15 = load.load_15;
      }

  unfoldable pub read_system : SystemReadings → Answer SystemResources
  read_system r = elim r.cpu_percent [
    | failed e ↦ failed e
    | ok percent ↦ elim r.memory [ failed e ↦ failed e | ok mem ↦ ok (resources_of r percent mem) ]
  ]

  abbrev pub refresh :
      ResourceCache → SystemReadings → Time → ResourceCache × Answer SystemResources
  refresh c r later = elim (read_system r) [
    | failed e ↦ (c, failed e)
    | ok resources ↦
        (record c { cached_resources = some resources; cache_time = later }, ok resources)
  ]

  -- `now` is read by the test of the cache, `later` when the cache is filled.
  unfoldable pub get_system_resources :
      ResourceCache → SystemReadings → (now later : Time) → ResourceCache × Answer SystemResources
  get_system_resources c r now later = elim c.cached_resources [
    | none ↦ refresh c r later
    | some cached ↦
        if ltb_ℤ (since now c.cache_time) c.cache_ttl then (c, ok cached) else refresh c r later
  ]

  abbrev pub is_enough : ResourceRequirements → SystemResources → Bool
  is_enough req resources =
      not (
        ltb_ℤ (pos 0) req.cpu_cores
        && ltb_ℤ (ops.to_int resources.available_cpu_cores) req.cpu_cores)
      && not (ltb_ℤ (pos 0) req.memory_mb && ltb_ℤ resources.available_memory_mb req.memory_mb)
      && not (ops.lt (ops.of_int (pos 90)) resources.cpu_load_percent)
      && not (ops.lt (ops.of_int (pos 90)) resources.memory_used_percent)

  -- The answer, and the cache as the call leaves it.
  unfoldable pub is_resource_available :
      ResourceCache
      → ResourceRequirements
      → SystemReadings
      → (now later : Time) → ResourceCache × Bool
  is_resource_available c req r now later =
      let (c', answer) = get_system_resources c r now later in
      elim answer [ failed e ↦ (c', false) | ok resources ↦ (c', is_enough req resources) ]
