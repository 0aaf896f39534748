-- ===== src/Metrics.antt =====
-- The methods of WorkerPoolMetrics (metrics.go) over the gauges of Prometheus, which are a parameter:
-- a gauge vector holds a value for each label.
pub mod Registry
use background_tasks.Base.{
  ◌≡◌, refl, Option, none, some, List, [], ◌∷◌, String, ℤ, str_eq, if◌then◌else◌, arith,
}
use background_tasks.Task.{Float64}
use background_tasks.Float.{FloatOps}

pub record Gauges (G : Type 0) : Type 0 where
  pub set : G → String → Float64 → G
  pub delete : G → String → G
  pub read : G → String → Option Float64
  pub read-set :
      (g : G) (label other : String) (v : Float64)
      → read (set g label v) other ≡ (if str_eq label other then some v else read g other)
  pub read-delete :
      (g : G) (label other : String)
      → read (delete g label) other ≡ (if str_eq label other then none else read g other)

-- The gauges with a task or a priority as their label.
pub record WorkerPoolMetrics (G : Type 0) : Type 0 where
  pub task_cpu_percent : G
  pub task_memory_bytes : G
  pub task_io_read_bytes : G
  pub task_io_write_bytes : G
  pub task_net_bytes_sent : G
  pub task_net_bytes_recv : G
  pub queue_depth : G

-- The arguments of RecordResourceSnapshot.
pub record Usage : Type 0 where
  pub cpu_percent : Float64
  pub memory_bytes : ℤ
  pub io_read_bytes : ℤ
  pub io_write_bytes : ℤ
  pub net_bytes_sent : ℤ
  pub net_bytes_recv : ℤ

module _ {G : Type 0} (gauges : Gauges G) where
  unfoldable pub cleanup_task_metrics : WorkerPoolMetrics G → String → WorkerPoolMetrics G
  cleanup_task_metrics m task_id = record m {
    task_cpu_percent = gauges.delete m.task_cpu_percent task_id;
    task_memory_bytes = gauges.delete m.task_memory_bytes task_id;
    task_io_read_bytes = gauges.delete m.task_io_read_bytes task_id;
    task_io_write_bytes = gauges.delete m.task_io_write_bytes task_id;
    task_net_bytes_sent = gauges.delete m.task_net_bytes_sent task_id;
    task_net_bytes_recv = gauges.delete m.task_net_bytes_recv task_id;
  }

  -- The six gauges of a task.
  abbrev pub task_gauges : WorkerPoolMetrics G → List G
  task_gauges m =
      m.task_cpu_percent ∷ m.task_memory_bytes ∷ m.task_io_read_bytes ∷ m.task_io_write_bytes
      ∷ m.task_net_bytes_sent ∷ m.task_net_bytes_recv ∷ []

  -- Each gauge reads under `label` as `gs` does, but as nothing under `gone`.
  abbrev pub Cleaned : String → String → List G → List G → Type 0
  Cleaned gone label [] [] = Unit
  Cleaned gone label (g ∷ gs) (g' ∷ gs') =
      (gauges.read g' label ≡ (if str_eq gone label then none else gauges.read g label))
      × Cleaned gone label gs gs'
  Cleaned gone label _ _ = ⊥

  set_then_delete :
      (g : G) (task_id label : String) (v : Float64)
      → gauges.read (gauges.delete (gauges.set g task_id v) task_id) label
        ≡ (if str_eq task_id label then none else gauges.read g label)
  set_then_delete g task_id label v = ground (
    arith,
    gauges.read-delete (gauges.set g task_id v) task_id label,
    gauges.read-set g task_id label v,
  )

  module _ (ops : FloatOps) where
    unfoldable pub record_resource_snapshot :
        WorkerPoolMetrics G → String → Usage → WorkerPoolMetrics G
    record_resource_snapshot m task_id u = record m {
      task_cpu_percent = gauges.set m.task_cpu_percent task_id u.cpu_percent;
      task_memory_bytes = gauges.set m.task_memory_bytes task_id (ops.of_int u.memory_bytes);
      task_io_read_bytes = gauges.set m.task_io_read_bytes task_id (ops.of_int u.io_read_bytes);
      task_io_write_bytes = gauges.set m.task_io_write_bytes task_id (ops.of_int u.io_write_bytes);
      task_net_bytes_sent = gauges.set m.task_net_bytes_sent task_id (ops.of_int u.net_bytes_sent);
      task_net_bytes_recv = gauges.set m.task_net_bytes_recv task_id (ops.of_int u.net_bytes_recv);
    }

    -- The entries in the order in which the map gives them.
    unfoldable pub set_all : G → List (String × ℤ) → G
    set_all g [] = g
    set_all g ((priority, count) ∷ depths) =
        set_all (gauges.set g priority (ops.of_int count)) depths

    unfoldable pub update_queue_depth :
        WorkerPoolMetrics G → List (String × ℤ) → WorkerPoolMetrics G
    update_queue_depth m depths = record m { queue_depth = set_all m.queue_depth depths }

    -- A snapshot that is recorded and then cleaned up leaves nothing behind: each of the six gauges has
    -- no value for the task and the old value for every other label, and the queue depth is kept.
    pub cleanup_after_record :
        (m : WorkerPoolMetrics G) (task_id : String) (u : Usage) (label : String)
        → let m' = cleanup_task_metrics (record_resource_snapshot m task_id u) task_id in
          Cleaned task_id label (task_gauges m) (task_gauges m') × (m'.queue_depth ≡ m.queue_depth)
    unfolding cleanup_task_metrics record_resource_snapshot
    cleanup_after_record m task_id u label = (
      (
        set_then_delete _ task_id label _,
        (
          set_then_delete _ task_id label _,
          (
            set_then_delete _ task_id label _,
            (
              set_then_delete _ task_id label _,
              (set_then_delete _ task_id label _, (set_then_delete _ task_id label _, tt)),
            ),
          ),
        ),
      ),
      refl,
    )
