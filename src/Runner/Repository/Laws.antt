-- ===== src/Runner/Repository/Laws.antt =====
-- The repository of the challenge runner as a map from ids to tasks, and its counts
-- (challenges/runner/main.go).
use background_tasks.Base.{
  ℕ, suc, ◌+◌, ◌≡◌, refl, sym, ap, subst, Bool-cases, Option, none, some, List, [], ◌∷◌, String,
  Time, lookup, lookup-insert, lookup-delete, str_eq, eq_iff, arith, length, if◌then◌else◌, inl,
  inr, Option-cases,
}
use background_tasks.Task.{BackgroundTask, TaskStatus, Float64, status_eq, status_eq_iff}
use background_tasks.Memory.{Ref, Heap, update, TaskMap}
use background_tasks.Runner.Repository.{
  InMemoryRepository, new_in_memory_repository, create, delete_task, modify, with_status,
  with_progress, with_heartbeat, with_death, update_status, update_progress, update_heartbeat,
  move_to_dead_letter, select, get_by_status, StatusCounts, increment_status, count_statuses,
  count_by_status, status_count,
}

-- What the calls that change a task in place do to it.
pub data Edit : Type 0 where
  status : TaskStatus → Edit
  progress : Float64 → String → Edit
  heartbeat : Time → Edit
  death : String → Edit

abbrev pub edit : Edit → BackgroundTask → BackgroundTask
edit (status s) t = with_status s t
edit (progress value message) t = with_progress value message t
edit (heartbeat now) t = with_heartbeat now t
edit (death reason) t = with_death reason t

-- What they are to do: an empty message stands for none.
abbrev pub given : String → Option String
given String.[] = none
given s = some s

abbrev pub changed : Edit → BackgroundTask → BackgroundTask
changed (status s) t = record t { status = s }
changed (progress value message) t = record t {
  progress = value;
  progress_message = elim (given message) [ none ↦ t.progress_message | some m ↦ some m ];
}
changed (heartbeat now) t = record t { last_heartbeat = some now }
changed (death reason) t = record t { status = TaskStatus.dead_letter; last_error = some reason }

marked : String → ℕ
marked String.[] = 0
marked (String.◌∷◌ c s) = 1

message_lem :
    (message : String) (old : Option String)
    → (if str_eq message "" then old else some message)
      ≡ elim (given message) [ none ↦ old | some m ↦ some m ]
unfolding marked
message_lem String.[] old = refl
message_lem (String.◌∷◌ c s) old = elim (Bool-cases (str_eq (String.◌∷◌ c s) "")) [
  | inl same ↦ absurd (omega (arith, ap marked ((eq_iff (String.◌∷◌ c s) "").0 same)))
  | inr other ↦ rw other
]

edit-changed : (e : Edit) (t : BackgroundTask) → edit e t ≡ changed e t
edit-changed (status s) t = refl
edit-changed (progress value message) t =
    ap (λ m. record t { progress = value; progress_message = m })
      (message_lem message t.progress_message)
edit-changed (heartbeat now) t = refl
edit-changed (death reason) t = refl

abbrev pub edited : InMemoryRepository → String → Edit → InMemoryRepository
edited r id (status s) = update_status r id s
edited r id (progress value message) = update_progress r id value message
edited r id (heartbeat now) = update_heartbeat r id now
edited r id (death reason) = move_to_dead_letter r id reason

-- A call that writes tasks.
pub data Call : Type 0 where
  stores : Ref → Call
  deletes : String → Call
  edits : String → Edit → Call

-- A call, or the holder of a pointer writes through it and leaves the id alone.
pub data Write : Type 0 where
  call : Call → Write
  outside : Ref → BackgroundTask → Write

abbrev pub perform : InMemoryRepository → Call → InMemoryRepository
perform r (stores a) = create r a
perform r (deletes id) = delete_task r id
perform r (edits id e) = edited r id e

abbrev pub write : InMemoryRepository → Write → InMemoryRepository
write r (call c) = perform r c
write r (outside a t) = record r { heap = update r.heap a (record t { id = (r.heap a).id }) }

abbrev pub write_all : InMemoryRepository → List Write → InMemoryRepository
write_all r [] = r
write_all r (w ∷ ws) = write_all (write r w) ws

-- The task that GetByID finds.
abbrev pub task_at : InMemoryRepository → String → Option BackgroundTask
task_at r id = elim (lookup id r.tasks) [ none ↦ none | some a ↦ some (r.heap a) ]

-- The map of tasks behind a call, from the one before it.
abbrev pub mapped : InMemoryRepository → Call → String → Option BackgroundTask
mapped r (stores a) j = if str_eq (r.heap a).id j then some (r.heap a) else task_at r j
mapped r (deletes id) j = if str_eq id j then none else task_at r j
mapped r (edits id e) j =
    if str_eq id j
    then (elim (task_at r j) [ none ↦ none | some t ↦ some (changed e t) ])
    else task_at r j

-- Each task is held under its own id.
abbrev Keyed : InMemoryRepository → Type 0
Keyed r = (id : String) (a : Ref) → lookup id r.tasks ≡ some a → (r.heap a).id ≡ id

edited-modify :
    (r : InMemoryRepository) (id : String) (e : Edit) → edited r id e ≡ modify r id (edit e)
edited-modify r id (status s) = refl
edited-modify r id (progress value message) = refl
edited-modify r id (heartbeat now) = refl
edited-modify r id (death reason) = refl

edit-id : (e : Edit) (t : BackgroundTask) → (edit e t).id ≡ t.id
edit-id (status s) t = refl
edit-id (progress value message) t = refl
edit-id (heartbeat now) t = refl
edit-id (death reason) t = refl

modify-Keyed :
    (r : InMemoryRepository) (id : String) (e : Edit) → Keyed r → Keyed (modify r id (edit e))
unfolding modify
modify-Keyed r id e k j b h = elim (Option-cases (lookup id r.tasks)) [
  | inl missing ↦ ground (arith, k j b)
  | inr (a, found) ↦ ground (arith, k j b, edit-id e (r.heap a))
]

perform-Keyed : (r : InMemoryRepository) (c : Call) → Keyed r → Keyed (perform r c)
unfolding create delete_task
perform-Keyed r (stores a) k j b h =
    ground (arith, k j b, lookup-insert (r.heap a).id j a r.tasks, eq_iff (r.heap a).id j)
perform-Keyed r (deletes id) k j b h = ground (arith, k j b, lookup-delete id j r.tasks)
perform-Keyed r (edits id e) k j b h =
    subst Keyed (sym (edited-modify r id e)) (modify-Keyed r id e k) j b h

write-Keyed : (r : InMemoryRepository) (w : Write) → Keyed r → Keyed (write r w)
write-Keyed r (call c) k = perform-Keyed r c k
write-Keyed r (outside a t) k = λ j b h. ground (arith, k j b)

modify-task_at :
    (r : InMemoryRepository) (id : String) (e : Edit) (j : String)
    → Keyed r
    → task_at (modify r id (edit e)) j ≡ mapped r (edits id e) j
unfolding modify
modify-task_at r id e j k = elim (Option-cases (lookup id r.tasks)) [
  | inl missing ↦ ground (arith, eq_iff id j)
  | inr (a, found) ↦ elim (Option-cases (lookup j r.tasks)) [
    | inl empty ↦ ground (arith, eq_iff id j)
    | inr (b, held) ↦
        ground (arith, eq_iff id j, k id a found, k j b held, edit-changed e (r.heap b))
  ]
]

perform-task_at :
    (r : InMemoryRepository) (c : Call) (j : String)
    → Keyed r
    → task_at (perform r c) j ≡ mapped r c j
unfolding create delete_task
perform-task_at r (stores a) j k = ground (arith, lookup-insert (r.heap a).id j a r.tasks)
perform-task_at r (deletes id) j k = ground (arith, lookup-delete id j r.tasks)
perform-task_at r (edits id e) j k = rw (edited-modify r id e) (modify-task_at r id e j k)

write_all-Keyed : (r : InMemoryRepository) (ws : List Write) → Keyed r → Keyed (write_all r ws)
write_all-Keyed r [] k = k
write_all-Keyed r (w ∷ ws) k = write_all-Keyed (write r w) ws (write-Keyed r w k)

-- The repository of the runner is a map from ids to tasks: behind any calls, and any writes of
-- those who hold a pointer and leave the id alone, one more call has the effect on it that its name
-- says. Create and Update put the task under its id, Delete takes the id out, the other calls
-- change the task of the id if there is one, where an empty message changes none; every other id
-- keeps its task, though tasks are shared by pointers.
pub perform-mapped :
    (h : Heap) (ws : List Write) (c : Call) (j : String)
    → let r = write_all (new_in_memory_repository h) ws in task_at (perform r c) j ≡ mapped r c j
unfolding lookup
perform-mapped h ws c j =
    perform-task_at (write_all (new_in_memory_repository h) ws) c j
      (write_all-Keyed (new_in_memory_repository h) ws (λ id a e. cc))

status_count-increment :
    (s k : TaskStatus) (c : StatusCounts)
    → status_count s (increment_status k c)
      ≡ (if status_eq k s then suc (status_count s c) else status_count s c)
unfolding status_count increment_status
status_count-increment s k [] = ground arith
status_count-increment s k ((j, n) ∷ c) =
    ground
      (arith, status_eq_iff j k, status_eq_iff k s, status_eq_iff j s, status_count-increment s k c)

status_count-from :
    (s : TaskStatus) (h : Heap) (m : TaskMap) (c : StatusCounts)
    → status_count s (count_statuses h m c)
      ≡ status_count s c + length (select (λ t. status_eq t.status s) h m)
unfolding count_statuses select
status_count-from s h [] c = omega arith
status_count-from s h ((k, a) ∷ m) c = ground (
  arith,
  status_count-from s h m c,
  status_count-from s h m (increment_status (h a).status c),
  status_count-increment s (h a).status c,
)

-- CountByStatus counts as many tasks of each status as GetByStatus returns.
pub count_by_status-length :
    (r : InMemoryRepository) (s : TaskStatus)
    → status_count s (count_by_status r) ≡ length (get_by_status r s)
count_by_status-length r s =
    unfold status_count in omega (arith, status_count-from s r.heap r.tasks [])
