-- ===== src/Runner/Repository.antt =====
-- The repository of the challenge runner (inMemoryRepository in challenges/runner/main.go): maps with
-- pointers to tasks and to snapshots, and a slice of events. Every call runs under the lock of the
-- repository and none fails, so a call is one function and its nil error is left out. Go walks a map
-- in any order; here it is the order of the list.
pub mod Laws
use background_tasks.Base.{
  ℕ, zero, suc, ◌+◌, ◌≡◌, Bool, true, false, Option, none, some, List, [], ◌∷◌, ◌++◌, map, String,
  Time, lookup, insert, delete, str_eq, if◌then◌else◌,
}
use background_tasks.Task.{BackgroundTask, TaskStatus, Float64, status_eq}
use background_tasks.Memory.{Ref, Heap, update, TaskMap}
use background_tasks.Stuck.{ResourceSnapshot}
use background_tasks.EventData.{Data}

pub record EventRec : Type 0 where
  pub task_id : String
  pub event_type : String
  pub details : Data
  pub worker_id : Option String

pub record InMemoryRepository : Type 0 where
  pub heap : Heap
  pub tasks : TaskMap
  pub snapshots : List (String × List ResourceSnapshot)
  pub events : List EventRec
  pub checkpoints : List (String × List ℕ)

abbrev pub new_in_memory_repository : Heap → InMemoryRepository
new_in_memory_repository h = record {
  heap = h;
  tasks = [];
  snapshots = [];
  events = [];
  checkpoints = [];
}

-- r.tasks[task.ID] = task, which is all of Create and of Update.
unfoldable pub create : InMemoryRepository → Ref → InMemoryRepository
create r a = record r { tasks = insert (r.heap a).id a r.tasks }

abbrev pub update_task : InMemoryRepository → Ref → InMemoryRepository
update_task r a = create r a

unfoldable pub get_by_id : InMemoryRepository → String → Option Ref
get_by_id r id = lookup id r.tasks

unfoldable pub delete_task : InMemoryRepository → String → InMemoryRepository
delete_task r id = record r { tasks = delete id r.tasks }

-- The task of an id is changed in place; an id that is not there is passed over.
unfoldable pub modify :
    InMemoryRepository → String → (BackgroundTask → BackgroundTask) → InMemoryRepository
modify r id f = elim (lookup id r.tasks) [
  | none ↦ r
  | some a ↦ record r { heap = update r.heap a (f (r.heap a)) }
]

abbrev pub with_status : TaskStatus → BackgroundTask → BackgroundTask
with_status status t = record t { status = status }

-- An empty message leaves the old one.
abbrev pub with_progress : Float64 → String → BackgroundTask → BackgroundTask
with_progress value message t = record t {
  progress = value;
  progress_message = if str_eq message "" then t.progress_message else some message;
}

abbrev pub with_heartbeat : Time → BackgroundTask → BackgroundTask
with_heartbeat now t = record t { last_heartbeat = some now }

abbrev pub with_death : String → BackgroundTask → BackgroundTask
with_death reason t = record t { status = TaskStatus.dead_letter; last_error = some reason }

abbrev pub update_status : InMemoryRepository → String → TaskStatus → InMemoryRepository
update_status r id status = modify r id (with_status status)

abbrev pub update_progress : InMemoryRepository → String → Float64 → String → InMemoryRepository
update_progress r id value message = modify r id (with_progress value message)

abbrev pub update_heartbeat : InMemoryRepository → String → Time → InMemoryRepository
update_heartbeat r id now = modify r id (with_heartbeat now)

abbrev pub move_to_dead_letter : InMemoryRepository → String → String → InMemoryRepository
move_to_dead_letter r task_id reason = modify r task_id (with_death reason)

abbrev pub save_checkpoint : InMemoryRepository → String → List ℕ → InMemoryRepository
save_checkpoint r id bytes = record r { checkpoints = insert id bytes r.checkpoints }

-- The tasks of the map that pass a test.
unfoldable pub select : (BackgroundTask → Bool) → Heap → TaskMap → List Ref
select p h [] = []
select p h ((k, a) ∷ m) = let rest = select p h m in if p (h a) then a ∷ rest else rest

-- The limit and the offset are ignored.
abbrev pub get_by_status : InMemoryRepository → TaskStatus → List Ref
get_by_status r status = select (λ t. status_eq t.status status) r.heap r.tasks

abbrev pub get_pending_tasks : InMemoryRepository → List Ref
get_pending_tasks r = get_by_status r TaskStatus.pending

abbrev pub get_stale_tasks : InMemoryRepository → List Ref
get_stale_tasks r = []

abbrev pub is_worker : String → Option String → Bool
is_worker worker none = false
is_worker worker (some w) = str_eq w worker

abbrev pub get_by_worker_id : InMemoryRepository → String → List Ref
get_by_worker_id r worker = select (λ t. is_worker worker t.worker_id) r.heap r.tasks

abbrev pub StatusCounts : Type 0
StatusCounts = List (TaskStatus × ℕ)

-- out[s]++
unfoldable pub increment_status : TaskStatus → StatusCounts → StatusCounts
increment_status s [] = (s, 1) ∷ []
increment_status s ((k, n) ∷ c) =
    if status_eq k s then (k, suc n) ∷ c else (k, n) ∷ increment_status s c

unfoldable pub count_statuses : Heap → TaskMap → StatusCounts → StatusCounts
count_statuses h [] counts = counts
count_statuses h ((k, a) ∷ m) counts = count_statuses h m (increment_status (h a).status counts)

abbrev pub count_by_status : InMemoryRepository → StatusCounts
count_by_status r = count_statuses r.heap r.tasks []

-- out[s], which is 0 for a missing key.
unfoldable pub status_count : TaskStatus → StatusCounts → ℕ
status_count s [] = 0
status_count s ((k, n) ∷ c) = if status_eq k s then n else status_count s c

-- No task is ever claimed here.
abbrev pub claim_next : InMemoryRepository → Option Ref
claim_next r = none

abbrev pub get_resource_snapshots : InMemoryRepository → String → List ResourceSnapshot
get_resource_snapshots r task_id = elim (lookup task_id r.snapshots) [
  | none ↦ []
  | some taken ↦ taken
]

abbrev pub save_resource_snapshot : InMemoryRepository → ResourceSnapshot → InMemoryRepository
save_resource_snapshot r snapshot = record r {
  snapshots =
      insert snapshot.task_id (get_resource_snapshots r snapshot.task_id ++ snapshot ∷ [])
        r.snapshots;
}

abbrev pub log_event : InMemoryRepository → EventRec → InMemoryRepository
log_event r event = record r { events = r.events ++ event ∷ [] }

abbrev pub get_task_history : InMemoryRepository → String → List EventRec
get_task_history r task_id = []
