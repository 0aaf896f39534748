-- ===== src/Memory.antt =====
-- InMemoryTaskQueue (task_queue.go, from the type to UpdateTask). The map `tasks` and the slice
-- `queue` hold pointers to the same objects, which the callers hold too, so the objects stand in
-- a heap and both containers hold references. A call runs under the queue's lock, so it is one
-- function; the instants that it reads from the clock are its arguments.
pub mod Exchange
pub mod Order
pub mod Claim
pub mod Steps
pub mod NoLoss
pub mod Counts
pub mod Ids
pub mod Peek
pub mod Contract
pub mod Bag
pub mod AsQueue
use Prim.Native.String.{◌++◌ as string_append}
use background_tasks.Base.{
  ℕ, zero, suc, ◌+◌, ◌≡◌, refl, ℤ, pos, negsuc, ◌+ℤ◌, ltb_ℤ, eqb_ℤ, pos_part, neg_part, Bool, true,
  false, not, ◌&&◌, ◌||◌, Option, none, some, List, [], ◌∷◌, ◌++◌, String, Time, Duration, ltb, leb,
  ◌==◌, str_eq, if◌then◌else◌, add_time, u64, decimal, lookup, insert, length, is_some,
}
use background_tasks.Task.{
  BackgroundTask, TaskStatus, TaskPriority, ResourceRequirements, Models, is_pending, is_running,
  priority_eq,
}
use Exchange.{exchange_sort}

-- A pointer to a task that is not nil.
abbrev pub Ref : Type 0
Ref = ℕ

abbrev pub Heap : Type 0
Heap = Ref → BackgroundTask

abbrev pub update : Heap → Ref → BackgroundTask → Heap
update h a t b = if a == b then t else h b

-- map[string]*models.BackgroundTask, one entry for each key.
abbrev pub TaskMap : Type 0
TaskMap = List (String × Ref)

pub record InMemoryTaskQueue : Type 0 where
  pub heap : Heap
  pub tasks : TaskMap
  pub queue : List Ref
  pub id_counter : ℕ  -- uint64

-- `error` with the id that its text carries.
pub data QueueError : Type 0 where
  task_not_found : String → QueueError

abbrev pub new_in_memory_task_queue : Heap → InMemoryTaskQueue
new_in_memory_task_queue h = record { heap = h; tasks = []; queue = []; id_counter = 0 }

-- fmt.Sprintf("task-%d-%d", stamp, counter)
unfoldable pub auto_id : ℕ → ℕ → String
auto_id stamp counter =
    string_append "task-" (string_append (decimal stamp) (string_append "-" (decimal counter)))

-- One reading of the clock for each call of time.Now in Enqueue.
pub record EnqueueTimes : Type 0 where
  pub stamp : ℕ  -- UnixNano, after 1970
  pub created : Time
  pub updated : Time

-- The id and the counter after the test for an empty id.
abbrev pub assign_id : String → ℕ → ℕ → String × ℕ
assign_id id counter stamp =
    let next = u64 (counter + 1) in
    if str_eq id "" then (auto_id stamp next, next) else (id, counter)

abbrev pub enqueued_task : BackgroundTask → String → EnqueueTimes → BackgroundTask
enqueued_task t id ts = record t {
  id = id;
  status = TaskStatus.pending;
  created_at = ts.created;
  updated_at = ts.updated;
}

module _ (m : Models) where
  -- Higher priority (lower weight) first, then the earlier created.
  abbrev pub should_swap : BackgroundTask → BackgroundTask → Bool
  should_swap a b =
      if not (eqb_ℤ (m.weight a.priority) (m.weight b.priority))
      then ltb_ℤ (m.weight b.priority) (m.weight a.priority)
      else ltb b.created_at a.created_at

  abbrev pub swap_refs : Heap → Ref → Ref → Bool
  swap_refs h a b = should_swap (h a) (h b)

  unfoldable pub sort_queue : Heap → List Ref → List Ref
  sort_queue h = exchange_sort (swap_refs h)

  unfoldable pub enqueue_ref : InMemoryTaskQueue → Ref → EnqueueTimes → InMemoryTaskQueue
  enqueue_ref q a ts =
      let (id, counter) = assign_id (q.heap a).id q.id_counter ts.stamp in
      let heap' = update q.heap a (enqueued_task (q.heap a) id ts) in
      record {
        heap = heap';
        tasks = insert id a q.tasks;
        queue = sort_queue heap' (q.queue ++ a ∷ []);
        id_counter = counter;
      }

  -- A nil task is dereferenced: `none` is the panic.
  unfoldable pub enqueue : InMemoryTaskQueue → Option Ref → EnqueueTimes → Option InMemoryTaskQueue
  enqueue q none ts = none
  enqueue q (some a) ts = some (enqueue_ref q a ts)

  unfoldable pub requeue :
      InMemoryTaskQueue
      → String
      → Duration
      → (now updated : Time) → InMemoryTaskQueue × Option QueueError
  requeue q task_id delay now updated = elim (lookup task_id q.tasks) [
    | none ↦ (q, some (task_not_found task_id))
    | some a ↦
        let heap' = update q.heap a (record (q.heap a) {
          status = TaskStatus.pending;
          worker_id = none;
          started_at = none;
          retry_count = (q.heap a).retry_count +ℤ pos 1;
          scheduled_at = add_time now delay;
          updated_at = updated;
        }) in
        (record q { heap = heap'; queue = sort_queue heap' (q.queue ++ a ∷ []) }, none)
  ]

-- The tests of the loop in Dequeue, at the instant that the round reads.
unfoldable pub is_eligible : BackgroundTask → ResourceRequirements → Time → Bool
is_eligible t req now =
    is_pending t.status
    && ltb t.scheduled_at now
    && not (ltb_ℤ (pos 0) req.cpu_cores && ltb_ℤ req.cpu_cores t.required_cpu_cores)
    && not (ltb_ℤ (pos 0) req.memory_mb && ltb_ℤ req.memory_mb t.required_memory_mb)

-- The entry that the loop stops at and the slice without it; `clock i` is read in round `i`.
unfoldable pub scan :
    Heap → ResourceRequirements → (ℕ → Time) → ℕ → List Ref → Option (Ref × List Ref)
scan h req clock i [] = none
scan h req clock i (a ∷ rest) =
    let later = scan h req clock (suc i) rest in
    if is_eligible (h a) req (clock i)
    then some (a, rest)
    else elim later [ none ↦ none | some (b, rest') ↦ some (b, a ∷ rest') ]

abbrev pub claim : BackgroundTask → String → Time → BackgroundTask
claim t worker now = record t {
  status = TaskStatus.running;
  worker_id = some worker;
  started_at = some now;
  last_heartbeat = some now;
  updated_at = now;
}

unfoldable pub dequeue :
    InMemoryTaskQueue
    → String
    → ResourceRequirements
    → (ℕ → Time)
    → Time
    → InMemoryTaskQueue × Option Ref
dequeue q worker req clock now = elim (scan q.heap req clock 0 q.queue) [
  | none ↦ (q, none)
  | some (a, rest) ↦
      (record q { heap = update q.heap a (claim (q.heap a) worker now); queue = rest }, some a)
]

-- The loop of Peek from position `i`.
unfoldable pub peek_from : Heap → ℕ → ℕ → List Ref → List Ref
peek_from h count i [] = []
peek_from h count i (a ∷ rest) =
    let later = peek_from h count (suc i) rest in
    if leb count i then [] else if is_pending (h a).status then a ∷ later else later

-- A negative capacity makes `make` panic.
unfoldable pub peek : InMemoryTaskQueue → ℤ → Option (List Ref)
unfolding peek_from
peek q (pos count) = some (peek_from q.heap count 0 q.queue)
peek q (negsuc _) = none

unfoldable pub move_to_dead_letter :
    InMemoryTaskQueue → String → String → Time → InMemoryTaskQueue × Option QueueError
move_to_dead_letter q task_id reason now = elim (lookup task_id q.tasks) [
  | none ↦ (q, some (task_not_found task_id))
  | some a ↦ (
    record q {
      heap = update q.heap a (record (q.heap a) {
        status = TaskStatus.dead_letter;
        last_error = some reason;
        updated_at = now;
      });
    },
    none,
  )
]

unfoldable pub count_where : (BackgroundTask → Bool) → Heap → TaskMap → ℕ
count_where p h [] = 0
count_where p h ((k, a) ∷ m) = let rest = count_where p h m in if p (h a) then suc rest else rest

unfoldable pub get_pending_count : InMemoryTaskQueue → ℕ
get_pending_count q = count_where (λ t. is_pending t.status) q.heap q.tasks

unfoldable pub get_running_count : InMemoryTaskQueue → ℕ
get_running_count q = count_where (λ t. is_running t.status) q.heap q.tasks

abbrev pub DepthMap : Type 0
DepthMap = List (TaskPriority × ℕ)

-- counts[p]++
unfoldable pub increment : TaskPriority → DepthMap → DepthMap
increment p [] = (p, 1) ∷ []
increment p ((k, n) ∷ c) = if priority_eq k p then (k, suc n) ∷ c else (k, n) ∷ increment p c

unfoldable pub depth_from : Heap → TaskMap → DepthMap → DepthMap
depth_from h [] counts = counts
depth_from h ((k, a) ∷ m) counts =
    depth_from h m (if is_pending (h a).status then increment (h a).priority counts else counts)

unfoldable pub get_queue_depth : InMemoryTaskQueue → DepthMap
unfolding depth_from
get_queue_depth q = depth_from q.heap q.tasks []

unfoldable pub get_task : InMemoryTaskQueue → String → Option Ref
unfolding lookup
get_task q task_id = lookup task_id q.tasks

unfoldable pub update_task : InMemoryTaskQueue → Ref → Time → InMemoryTaskQueue
update_task q a now = record q {
  heap = update q.heap a (record (q.heap a) { updated_at = now });
  tasks = insert (q.heap a).id a q.tasks;
}
