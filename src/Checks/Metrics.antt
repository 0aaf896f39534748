-- ===== src/Checks/Metrics.antt =====
-- WorkerPoolMetrics: the theorems at concrete inputs.
use background_tasks.Base.{
  ◌≡◌, refl, pos, some, List, [], ◌∷◌, String, lookup, insert, delete, lookup-insert, lookup-delete,
}
use background_tasks.Base.{
  Bool, true, false, ◌||◌, none, is_some, if◌then◌else◌, str_eq, inl, inr, Bool-cases, ◌⊎◌, All,
}
use background_tasks.Metrics.Registry.{
  Kind, Collector, collectors, Registry, fresh_globals, gets, sets, run, new_worker_pool_metrics,
}
use background_tasks.Metrics.Registry.Once.{Free, Answered, global_metrics_once}
use background_tasks.Task.{Float64}
use background_tasks.Metrics.{Gauges, WorkerPoolMetrics, Usage, update_queue_depth, set_all}
use background_tasks.Checks.Samples.{sample_floats}

-- A gauge vector as a list of labels with their values.
abbrev list_gauges : Gauges (List (String × Float64))
list_gauges = record {
  set = λ g label v. insert label v g;
  delete = λ g label. delete label g;
  read = λ g label. lookup label g;
  read-set = λ g label other v. lookup-insert label other v g;
  read-delete = λ g label other. lookup-delete label other g;
}

abbrev metrics : WorkerPoolMetrics (List (String × Float64))
metrics = record {
  task_cpu_percent = ("other", 3) ∷ [];
  task_memory_bytes = [];
  task_io_read_bytes = [];
  task_io_write_bytes = [];
  task_net_bytes_sent = [];
  task_net_bytes_recv = [];
  queue_depth = ("high", 5000) ∷ [];
}

abbrev usage : Usage
usage = record {
  cpu_percent = 12000;
  memory_bytes = pos 4096;
  io_read_bytes = pos 1;
  io_write_bytes = pos 2;
  net_bytes_sent = pos 3;
  net_bytes_recv = pos 4;
}

-- A priority that is missing from the counts keeps its old value.
stale_depth :
    lookup "high"
      (update_queue_depth list_gauges sample_floats metrics (("low", pos 1) ∷ [])).queue_depth
    ≡ some 5000
unfolding update_queue_depth set_all insert lookup
stale_depth = refl

-- A registry as a list of names, in which the namespace is taken for granted.
abbrev has_name : List (String × Kind) → String → Bool
has_name p name = is_some (lookup name p)

abbrev register_name : List (String × Kind) → Collector → List (String × Kind) × Bool
register_name p c = if has_name p c.name then (p, false) else (insert c.name c.kind p, true)

register-has_name :
    (p : List (String × Kind)) (c : Collector)
    → has_name p c.name ≡ true
    → register_name p c ≡ (p, false)
register-has_name p c h = rw h

register-new_name :
    (p : List (String × Kind)) (c : Collector)
    → has_name p c.name ≡ false
    → (register_name p c).1 ≡ true
register-new_name p c h = rw h

has-register_name :
    (p : List (String × Kind)) (c : Collector) (other : String)
    → (register_name p c).1 ≡ true
    → has_name (register_name p c).0 other ≡ (str_eq c.name other || has_name p other)
has-register_name p c other h = elim (Bool-cases (has_name p c.name)) [
  | inl known ↦ absurd (refused known h)
  | inr new ↦ rw (new, lookup-insert c.name other c.kind p) (by_test (str_eq c.name other))
]
  where
    refused : has_name p c.name ≡ true → (register_name p c).1 ≡ true → ⊥
    refused known h = cc

    by_test :
        (b : Bool) → is_some (if b then some c.kind else lookup other p) ≡ (b || has_name p other)
    by_test true = refl
    by_test false = refl

abbrev name_registry : Registry (List (String × Kind))
name_registry = record {
  has = λ p n s name. has_name p name;
  register = λ p n s c. register_name p c;
  register-has = λ p n s c. register-has_name p c;
  register-new = λ p n s c. register-new_name p c;
  has-register = λ p n s c other. has-register_name p c other;
}

empty-Free : (cs : List Collector) → Free name_registry [] cs
unfolding lookup
empty-Free [] = tt
empty-Free (c ∷ cs) = (refl, empty-Free cs)

global_metrics_once_example :
    let (g, answers) =
      run name_registry (fresh_globals []) (gets ∷ sets (some 7) ∷ gets ∷ sets none ∷ gets ∷ []) in
    All (Answered name_registry) answers
    × (((g.made ≡ 0) × (g.prometheus ≡ []))
        ⊎ ((g.made ≡ 1) × (g.prometheus ≡ (new_worker_pool_metrics name_registry []).0)))
global_metrics_once_example =
    global_metrics_once name_registry [] (gets ∷ sets (some 7) ∷ gets ∷ sets none ∷ gets ∷ [])
      (empty-Free collectors)
