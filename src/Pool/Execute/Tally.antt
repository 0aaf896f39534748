-- ===== src/Pool/Execute/Tally.antt =====
-- Counts over the effects of an execution (worker_pool.go).
use background_tasks.Base.{ℕ, ◌+◌, ◌≡◌, List, [], ◌∷◌, ◌++◌, refl, arith}
use background_tasks.Task.{BackgroundTask, TaskStatus}
use background_tasks.Pool.Execute.{
  Effect, monitoring_started, monitoring_stopped, executed, updated, requeued, dead_lettered,
}

abbrev pub tally : (Effect → ℕ) → List Effect → ℕ
tally p [] = 0
tally p (e ∷ es) = p e + tally p es

pub tally-append :
    (p : Effect → ℕ) (xs ys : List Effect) → tally p (xs ++ ys) ≡ tally p xs + tally p ys
tally-append p [] ys = omega arith
tally-append p (x ∷ xs) ys = omega (arith, tally-append p xs ys)

abbrev pub is_completed : TaskStatus → ℕ
is_completed TaskStatus.completed = 1
is_completed _ = 0

-- The three ways to dispose of a task: store it as completed, give it back, bury it.
abbrev pub disposal : Effect → ℕ
disposal (updated t) = is_completed t.status
disposal (requeued _ _) = 1
disposal (dead_lettered _ _) = 1
disposal _ = 0

abbrev pub starts : Effect → ℕ
starts (monitoring_started _ _) = 1
starts _ = 0

abbrev pub stops : Effect → ℕ
stops (monitoring_stopped _) = 1
stops _ = 0

abbrev pub runs : Effect → ℕ
runs (executed _ _) = 1
runs _ = 0

abbrev pub requeues : Effect → ℕ
requeues (requeued _ _) = 1
requeues _ = 0

abbrev pub burials : Effect → ℕ
burials (dead_lettered _ _) = 1
burials _ = 0

-- The tasks that are stored, in order.
abbrev pub stored_tasks : List Effect → List BackgroundTask
stored_tasks [] = []
stored_tasks (updated t ∷ es) = t ∷ stored_tasks es
stored_tasks (_ ∷ es) = stored_tasks es

abbrev pub stores : Effect → ℕ
stores (updated _) = 1
stores _ = 0

pub stored_tasks-append :
    (xs ys : List Effect) → stored_tasks (xs ++ ys) ≡ stored_tasks xs ++ stored_tasks ys
stored_tasks-append [] ys = refl
stored_tasks-append (x ∷ xs) ys = let rest = stored_tasks-append xs ys in ground (arith, rest)
