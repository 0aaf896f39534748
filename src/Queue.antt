-- ===== src/Queue.antt =====
-- The interface TaskQueue (interfaces.go) as a record of functions over the state `D` of an
-- implementation, and runs of calls through it. A call reads one instant from the clock. Tasks are
-- values here: Enqueue also returns the task as it left it.
use background_tasks.Base.{ℕ, ◌≡◌, ◌≢◌, ℤ, Option, none, List, [], ◌∷◌, String, Time, Duration}
use background_tasks.Task.{BackgroundTask, TaskPriority, ResourceRequirements}

-- How a Go call ends: it returns a value, returns an error, or panics.
pub data Reply (A : Type 0) : Type 0 where
  returned : A → Reply A
  raised : String → Reply A
  panicked : Reply A

abbrev pub then_reply : {A B : Type 0} → Reply A → (A → B) → Reply B
then_reply (returned a) f = returned (f a)
then_reply (raised e) f = raised e
then_reply panicked f = panicked

pub record TaskQueue (D : Type 0) : Type 0 where
  pub enqueue : D → Option BackgroundTask → Time → D × Option BackgroundTask × Reply Unit
  pub dequeue : D → String → ResourceRequirements → Time → D × Reply (Option BackgroundTask)
  pub peek : D → ℤ → Reply (List BackgroundTask)
  pub requeue : D → String → Duration → Time → D × Reply Unit
  pub move_to_dead_letter : D → String → String → Time → D × Reply Unit
  pub get_pending_count : D → Reply ℤ
  pub get_running_count : D → Reply ℤ
  pub get_queue_depth : D → Time → D × Reply (List (TaskPriority × ℕ))
  -- Enqueue returns no nil error for a nil task.
  pub enqueue_nil :
      (d : D) (now : Time) (t : Option BackgroundTask)
      → (enqueue d t now).2 ≡ returned tt
      → (enqueue d t now).1 ≢ none

-- A call through the interface, and what it returns.
pub data Op : Type 0 where
  enqueues : Option BackgroundTask → Op
  dequeues : String → ResourceRequirements → Op
  peeks : ℤ → Op
  requeues : String → Duration → Op
  buries : String → String → Op
  counts_pending counts_running counts_depth : Op

pub data Result : Type 0 where
  nothing : Result
  task : Option BackgroundTask → Result
  tasks : List BackgroundTask → Result
  count : ℤ → Result
  depth : List (TaskPriority × ℕ) → Result

module _ {D : Type 0} (tq : TaskQueue D) where
  abbrev pub call : D → Op → Time → D × Reply Result
  call d (enqueues t) now = let (d', _, r) = tq.enqueue d t now in (d', then_reply r λ _. nothing)
  call d (dequeues worker req) now =
      let (d', r) = tq.dequeue d worker req now in (d', then_reply r task)
  call d (peeks n) now = (d, then_reply (tq.peek d n) tasks)
  call d (requeues id delay) now =
      let (d', r) = tq.requeue d id delay now in (d', then_reply r λ _. nothing)
  call d (buries id reason) now =
      let (d', r) = tq.move_to_dead_letter d id reason now in (d', then_reply r λ _. nothing)
  call d counts_pending now = (d, then_reply (tq.get_pending_count d) count)
  call d counts_running now = (d, then_reply (tq.get_running_count d) count)
  call d counts_depth now = let (d', r) = tq.get_queue_depth d now in (d', then_reply r depth)

  -- The replies of a list of calls, and the state behind them.
  unfoldable pub run : D → List (Op × Time) → D × List (Reply Result)
  run d [] = (d, [])
  run d ((op, now) ∷ ops) =
      let (d', r) = call d op now in let (d'', rs) = run d' ops in (d'', r ∷ rs)
