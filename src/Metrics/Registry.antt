-- ===== src/Metrics/Registry.antt =====
-- NewWorkerPoolMetrics, GetGlobalMetrics and SetGlobalMetrics (metrics.go). The registry of
-- Prometheus is a parameter: it refuses a collector whose name it has, and promauto then panics. The
-- buckets of the histograms are left out.
pub mod Once
use background_tasks.Base.{
  ℕ, suc, ◌≡◌, refl, Bool, true, false, ◌||◌, Option, none, some, List, [], ◌∷◌, String, str_eq,
  arith, if◌then◌else◌, All,
}

pub data Kind : Type 0 where
  gauge counter histogram gauge_vec counter_vec histogram_vec : Kind

-- The options of a collector: namespace and subsystem are the same for all. The help is translated.
pub record Collector : Type 0 where
  pub kind : Kind
  pub name : String
  pub help : String
  pub labels : List String

abbrev pub namespace : String
namespace = "helixagent"

abbrev pub subsystem : String
subsystem = "background"

abbrev collector : Kind → String → String → List String → Collector
collector kind name help labels = record { kind = kind; name = name; help = help; labels = labels }

-- What NewWorkerPoolMetrics registers, in its order.
unfoldable pub collectors : List Collector
collectors =
    collector gauge "workers_active" "background_metric_workers_active" []
    ∷ collector gauge "workers_total" "background_metric_workers_total" []
    ∷ collector counter_vec "scaling_events_total" "background_metric_scaling_events"
        ("direction" ∷ [])
    ∷ collector counter_vec "tasks_total" "background_metric_tasks_total"
        ("task_type" ∷ "status" ∷ [])
    ∷ collector gauge_vec "tasks_in_queue" "background_metric_tasks_in_queue" ("priority" ∷ [])
    ∷ collector histogram_vec "task_duration_seconds" "background_metric_task_duration"
        ("task_type" ∷ [])
    ∷ collector counter_vec "task_retries_total" "background_metric_task_retries" ("task_type" ∷ [])
    ∷ collector counter "stuck_tasks_total" "background_metric_stuck_tasks" []
    ∷ collector counter "dead_letter_tasks_total" "background_metric_dead_letter_tasks" []
    ∷ collector gauge_vec "task_cpu_percent" "background_metric_task_cpu_percent" ("task_id" ∷ [])
    ∷ collector gauge_vec "task_memory_bytes" "background_metric_task_memory_bytes" ("task_id" ∷ [])
    ∷ collector gauge_vec "task_io_read_bytes" "background_metric_task_io_read_bytes"
        ("task_id" ∷ [])
    ∷ collector gauge_vec "task_io_write_bytes" "background_metric_task_io_write_bytes"
        ("task_id" ∷ [])
    ∷ collector gauge_vec "task_net_bytes_sent" "background_metric_task_net_bytes_sent"
        ("task_id" ∷ [])
    ∷ collector gauge_vec "task_net_bytes_recv" "background_metric_task_net_bytes_recv"
        ("task_id" ∷ [])
    ∷ collector counter_vec "notifications_sent_total" "background_metric_notifications_sent"
        ("type" ∷ "event" ∷ [])
    ∷ collector counter_vec "notification_errors_total" "background_metric_notification_errors"
        ("type" ∷ [])
    ∷ collector histogram_vec "notification_latency_seconds"
        "background_metric_notification_latency" ("type" ∷ [])
    ∷ collector gauge_vec "queue_depth" "background_metric_queue_depth" ("priority" ∷ [])
    ∷ collector histogram "dequeue_latency_seconds" "background_metric_dequeue_latency" []
    ∷ collector histogram "enqueue_latency_seconds" "background_metric_enqueue_latency" []
    ∷ []

-- A registry `P`: `has p namespace subsystem name` says whether a collector of this name is there,
-- and `register` is the state behind a call and whether it was accepted.
pub record Registry (P : Type 0) : Type 0 where
  pub has : P → String → String → String → Bool
  pub register : P → String → String → Collector → P × Bool
  pub register-has :
      (p : P) (n s : String) (c : Collector)
      → has p n s c.name ≡ true
      → register p n s c ≡ (p, false)
  pub register-new :
      (p : P) (n s : String) (c : Collector)
      → has p n s c.name ≡ false
      → (register p n s c).1 ≡ true
  pub has-register :
      (p : P) (n s : String) (c : Collector) (other : String)
      → (register p n s c).1 ≡ true
      → has (register p n s c).0 n s other ≡ (str_eq c.name other || has p n s other)

-- globalMetrics as a reference that may be nil, whether the function of globalMetricsOnce has run,
-- and the number of metrics made so far.
pub record Globals (P : Type 0) : Type 0 where
  pub prometheus : P
  pub global_metrics : Option ℕ
  pub once_done : Bool
  pub made : ℕ

abbrev pub set_global_metrics : {P : Type 0} → Option ℕ → Globals P → Globals P
set_global_metrics m g = record g { global_metrics = m }

-- What GetGlobalMetrics answers.
pub data Got : Type 0 where
  got : Option ℕ → Got
  panicked : Got

pub data GlobalCall : Type 0 where
  gets : GlobalCall
  sets : Option ℕ → GlobalCall

abbrev pub fresh_globals : {P : Type 0} → P → Globals P
fresh_globals p = record { prometheus = p; global_metrics = none; once_done = false; made = 0 }

module _ {P : Type 0} (registry : Registry P) where
  -- The collectors one after the other, up to the first that is refused.
  unfoldable pub register_all : P → List Collector → P × Bool
  register_all p [] = (p, true)
  register_all p (c ∷ cs) =
      let (p', accepted) = registry.register p namespace subsystem c in
      let rest = register_all p' cs in if accepted then rest else (p', false)

  -- The registry behind the call, and whether it ends without a panic.
  unfoldable pub new_worker_pool_metrics : P → P × Bool
  new_worker_pool_metrics p = register_all p collectors

  -- Once.Do counts its function as run even if it panics.
  unfoldable pub get_global_metrics : Globals P → Globals P × Got
  get_global_metrics g =
      let (p, created) = new_worker_pool_metrics g.prometheus in
      if g.once_done then (g, got g.global_metrics) else elim g.global_metrics [
        | some m ↦ (record g { once_done = true }, got (some m))
        | none ↦
            if created
            then (
              record {
                prometheus = p;
                global_metrics = some g.made;
                once_done = true;
                made = suc g.made;
              },
              got (some g.made),
            )
            else (record g { prometheus = p; once_done = true }, panicked)
      ]

  abbrev pub call : Globals P → GlobalCall → Globals P × Option Got
  call g gets = let (g', answer) = get_global_metrics g in (g', some answer)
  call g (sets m) = (set_global_metrics m g, none)

  -- The state behind a list of calls, and the answers of GetGlobalMetrics.
  unfoldable pub run : Globals P → List GlobalCall → Globals P × List (Option Got)
  run g [] = (g, [])
  run g (c ∷ cs) =
      let (g', answer) = call g c in let (g'', answers) = run g' cs in (g'', answer ∷ answers)
