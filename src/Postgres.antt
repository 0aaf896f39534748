-- ===== src/Postgres.antt =====
-- PostgresTaskQueue (task_queue.go) over a repository that is a parameter: the interface of
-- TaskRepository, of which the queue calls the operations below, with `R` the repository's state.
-- Errors of LogEvent are only logged by the source. Its counts are in the order in which the
-- priorities are met.
pub mod Cache
pub mod AsQueue
pub mod Stats
pub mod Depth
use background_tasks.Base.{
  ℕ, zero, suc, ◌+◌, ◌*◌, ◌≡◌, refl, ◌⊎◌, inl, inr, ℤ, pos, ◌+ℤ◌, quot_ℤ, ltb_ℤ, Bool, true, false,
  not, ◌&&◌, Option, none, some, List, [], ◌∷◌, String, Time, Duration, second, add_time, since,
  length, ltb, ◌==◌, if◌then◌else◌,
}
use background_tasks.Task.{BackgroundTask, TaskStatus, TaskPriority, ResourceRequirements}
use background_tasks.EventData.{Data, text, number, instant, rank}
use background_tasks.Memory.{DepthMap, increment}

-- What a repository call returns.
pub data Answer (A : Type 0) : Type 0 where
  ok : A → Answer A
  failed : String → Answer A

pub Answer-cases :
    {A : Type 0} (a : Answer A) → ((x : A) × (a ≡ ok x)) ⊎ ((e : String) × (a ≡ failed e))
Answer-cases (ok x) = inl (x, refl)
Answer-cases (failed e) = inr (e, refl)

pub record TaskRepository (R : Type 0) : Type 0 where
  pub create : R → BackgroundTask → R × Option String
  pub update_task : R → BackgroundTask → R × Option String
  pub log_event : R → String → String → Data → Option String → R
  pub get_by_id : R → String → Answer (Option BackgroundTask)
  pub claim_next : R → String → ℤ → ℤ → R × Answer (Option BackgroundTask)
  pub get_pending_tasks : R → ℤ → Answer (List BackgroundTask)
  pub get_by_status : R → TaskStatus → ℕ → ℕ → Answer (List BackgroundTask)
  pub bury : R → String → String → R × Option String
  pub count_by_status : R → Answer (TaskStatus → ℤ)

pub record PostgresTaskQueue (R : Type 0) : Type 0 where
  pub store : R
  pub cached_depth : DepthMap
  pub depth_cache_time : Time
  pub depth_cache_ttl : Duration

pub data QueueFailure : Type 0 where
  nil_task : QueueFailure
  enqueue_failed dequeue_failed get_failed update_failed bury_failed : String → QueueFailure

-- How a call ends: with its value, with an error, or in a panic.
pub data Ending (A : Type 0) : Type 0 where
  value : A → Ending A
  error : QueueFailure → Ending A
  panic : Ending A

abbrev pub count_priorities : List BackgroundTask → DepthMap → DepthMap
count_priorities [] counts = counts
count_priorities (t ∷ ts) counts = count_priorities ts (increment t.priority counts)

abbrev pub default_status : BackgroundTask → BackgroundTask
default_status t = elim t.status [
  | TaskStatus.unset ↦ record t { status = TaskStatus.pending }
  | _ ↦ t
]

abbrev pub default_priority : BackgroundTask → BackgroundTask
default_priority t = elim t.priority [
  | TaskPriority.unset ↦ record t { priority = TaskPriority.normal }
  | _ ↦ t
]

abbrev pub default_schedule : BackgroundTask → Time → BackgroundTask
default_schedule t now = if t.scheduled_at == 0 then record t { scheduled_at = now } else t

-- The task with the values that Enqueue fills in.
abbrev pub prepared : BackgroundTask → Time → BackgroundTask
prepared t now = default_schedule (default_priority (default_status t)) now

abbrev pub requeued : BackgroundTask → Duration → Time → BackgroundTask
requeued t delay now = record t {
  status = TaskStatus.pending;
  worker_id = none;
  started_at = none;
  last_heartbeat = none;
  retry_count = t.retry_count +ℤ pos 1;
  scheduled_at = if ltb_ℤ (pos 0) delay then add_time now delay else now;
}

-- What Enqueue and Requeue log with the event.
abbrev pub created_data : BackgroundTask → Data
created_data t =
    ("task_type", text t.task_type)
    ∷ ("task_name", text t.task_name)
    ∷ ("priority", rank t.priority)
    ∷ []

abbrev pub retrying_data : BackgroundTask → Duration → Data
retrying_data t delay =
    ("retry_count", number t.retry_count)
    ∷ ("delay_ms", number (quot_ℤ delay (pos 1000000)))
    ∷ ("scheduled_at", instant t.scheduled_at)
    ∷ []

abbrev pub limit_of : ℤ → ℤ
limit_of n = if ltb_ℤ (pos 0) n then n else pos 0

module _ {R : Type 0} where
  -- The zero time stands for "no cache".
  abbrev pub invalidate_cache : PostgresTaskQueue R → PostgresTaskQueue R
  invalidate_cache q = record q { depth_cache_time = 0 }

  abbrev pub new_postgres_task_queue : R → PostgresTaskQueue R
  new_postgres_task_queue store = record {
    store = store;
    cached_depth = [];
    depth_cache_time = 0;
    depth_cache_ttl = pos (5 * second);
  }

  -- After a write: the event is logged and the cache dropped.
  abbrev pub written :
      TaskRepository R
      → PostgresTaskQueue R
      → R
      → String
      → String
      → Data
      → Option String
      → PostgresTaskQueue R
  written repo q store id event details worker =
      invalidate_cache (record q { store = repo.log_event store id event details worker })

module _ {R : Type 0} (repo : TaskRepository R) where
  unfoldable pub enqueue :
      PostgresTaskQueue R → Option BackgroundTask → Time → PostgresTaskQueue R × Ending Unit
  enqueue q none now = (q, error nil_task)
  enqueue q (some t) now =
      let (store, err) = repo.create q.store (prepared t now) in
      elim err [
        | none ↦ (
          written repo q store t.id "task.created" (created_data (prepared t now)) none,
          value tt,
        )
        | some e ↦ (record q { store = store }, error (enqueue_failed e))
      ]

  unfoldable pub dequeue :
      PostgresTaskQueue R
      → String
      → ResourceRequirements
      → PostgresTaskQueue R × Ending (Option BackgroundTask)
  dequeue q worker req =
      let (store, answer) =
        repo.claim_next q.store worker (limit_of req.cpu_cores) (limit_of req.memory_mb) in
      elim answer [
        | failed e ↦ (record q { store = store }, error (dequeue_failed e))
        | ok found ↦ elim found [
          | none ↦ (record q { store = store }, value none)
          | some t ↦ (
            written repo q store t.id "task.started" (("worker_id", text worker) ∷ [])
                (some worker),
            value (some t),
          )
        ]
      ]

  unfoldable pub peek : PostgresTaskQueue R → ℤ → Answer (List BackgroundTask)
  peek q count = repo.get_pending_tasks q.store (if ltb_ℤ (pos 0) count then count else pos 10)

  unfoldable pub requeue :
      PostgresTaskQueue R → String → Duration → Time → PostgresTaskQueue R × Ending Unit
  requeue q task_id delay now = elim (repo.get_by_id q.store task_id) [
    | failed e ↦ (q, error (get_failed e))
    | ok found ↦ elim found [
      | none ↦ (q, panic)
      | some t ↦
          let (store, err) = repo.update_task q.store (requeued t delay now) in
          elim err [
            | none ↦ (
              written repo q store task_id "task.retrying"
                  (retrying_data (requeued t delay now) delay) none,
              value tt,
            )
            | some e ↦ (record q { store = store }, error (update_failed e))
          ]
    ]
  ]

  unfoldable pub move_to_dead_letter :
      PostgresTaskQueue R → String → String → PostgresTaskQueue R × Ending Unit
  move_to_dead_letter q task_id reason =
      let (store, err) = repo.bury q.store task_id reason in
      elim err [
        | none ↦ (invalidate_cache (record q { store = store }), value tt)
        | some e ↦ (record q { store = store }, error (bury_failed e))
      ]

  unfoldable pub get_count : PostgresTaskQueue R → TaskStatus → Answer ℤ
  get_count q status = elim (repo.count_by_status q.store) [
    | failed e ↦ failed e
    | ok counts ↦ ok (counts status)
  ]

  abbrev pub get_pending_count : PostgresTaskQueue R → Answer ℤ
  get_pending_count q = get_count q TaskStatus.pending

  abbrev pub get_running_count : PostgresTaskQueue R → Answer ℤ
  get_running_count q = get_count q TaskStatus.running

  abbrev pub is_fresh : PostgresTaskQueue R → Time → Bool
  is_fresh q now =
      ltb_ℤ (since now q.depth_cache_time) q.depth_cache_ttl && ltb 0 (length q.cached_depth)

  -- `now` is read by the test of the cache, `later` when the cache is filled.
  unfoldable pub get_queue_depth :
      PostgresTaskQueue R → Time → Time → PostgresTaskQueue R × Answer DepthMap
  get_queue_depth q now later =
      if is_fresh q now
      then (q, ok q.cached_depth)
      else elim (repo.get_by_status q.store TaskStatus.pending 10000 0) [
        | failed e ↦ (q, failed e)
        | ok ts ↦ (
          record q { cached_depth = count_priorities ts []; depth_cache_time = later },
          ok (count_priorities ts []),
        )
      ]
