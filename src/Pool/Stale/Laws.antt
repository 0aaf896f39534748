-- ===== src/Pool/Stale/Laws.antt =====
-- Which tasks a round of the stuck detection marks (worker_pool.go).
use background_tasks.Base.{
  ◌≡◌, refl, ◌∙◌, ◌⊎◌, inl, inr, Option, none, some, List, [], ◌∷◌, ◌++◌, ap, String, arith,
  Option-cases,
}
use background_tasks.Task.{BackgroundTask, TaskStatus}
use background_tasks.Pool.Execute.{Env, Effect}
use background_tasks.Pool.Execute.Tally.{stored_tasks, stored_tasks-append}
use background_tasks.Stuck.{ResourceSnapshot}
use background_tasks.Pool.Stale.{Detector, handle_stuck_task, judge_tasks, check_for_stuck_tasks}

abbrev pub first_if_marked :
    Option String
    → (List BackgroundTask → List BackgroundTask)
    → List BackgroundTask
    → List BackgroundTask
first_if_marked found rest [] = []
first_if_marked none rest (t' ∷ ts') = rest ts'
first_if_marked (some reason) rest (t' ∷ ts') = t' ∷ rest ts'

-- The tasks that the detector calls stuck, as the round leaves them: the second list goes with the
-- first.
abbrev pub marked_tasks :
    (BackgroundTask → Option String)
    → List BackgroundTask
    → List BackgroundTask
    → List BackgroundTask
marked_tasks verdict [] ts' = []
marked_tasks verdict (t ∷ ts) ts' = first_if_marked (verdict t) (marked_tasks verdict ts) ts'

-- Each task of a round is as it was if the detector passes it, and stuck with the reason if not.
abbrev pub Judged :
    (BackgroundTask → Option String) → List BackgroundTask → List BackgroundTask → Type 0
Judged verdict [] [] = Unit
Judged verdict [] (_ ∷ _) = ⊥
Judged verdict (_ ∷ _) [] = ⊥
Judged verdict (t ∷ ts) (t' ∷ ts') =
    (((verdict t ≡ none) × (t' ≡ t))
      ⊎ ((reason : String) × (verdict t ≡ some reason)
          × (t' ≡ record t { status = TaskStatus.stuck; last_error = some reason })))
    × Judged verdict ts ts'

-- The effects store the task once, as it is marked.
marked_first :
    (env : Env) (t : BackgroundTask) (reason : String) (rest : List BackgroundTask)
    → stored_tasks (handle_stuck_task env t reason).1 ++ rest
      ≡ record t { status = TaskStatus.stuck; last_error = some reason } ∷ rest
unfolding handle_stuck_task
marked_first env t reason rest = ground arith

-- One round of the loop, with what the later ones give.
judged_first :
    (env : Env) (found : Option String) (t : BackgroundTask)
    (later : List BackgroundTask × List Effect) (marked : List BackgroundTask → List BackgroundTask)
    → stored_tasks later.1 ≡ marked later.0
    → let (ts', effects) : List BackgroundTask × List Effect = elim found [
      | none ↦ (t ∷ later.0, later.1)
      | some reason ↦ (
        (handle_stuck_task env t reason).0 ∷ later.0,
        (handle_stuck_task env t reason).1 ++ later.1,
      )
    ] in
      stored_tasks effects ≡ first_if_marked found marked ts'
judged_first env none t later marked h = h
judged_first env (some reason) t later marked h =
    stored_tasks-append (handle_stuck_task env t reason).1 later.1
    ∙ marked_first env t reason (stored_tasks later.1)
    ∙ (unfold handle_stuck_task in
        ap (λ l. record t { status = TaskStatus.stuck; last_error = some reason } ∷ l) h)

judge_tasks-stored :
    (env : Env) (verdict : BackgroundTask → Option String) (ts : List BackgroundTask)
    → let (ts', effects) = judge_tasks env verdict ts in
      stored_tasks effects ≡ marked_tasks verdict ts ts'
unfolding judge_tasks
judge_tasks-stored env verdict [] = refl
judge_tasks-stored env verdict (t ∷ ts) =
    judged_first env (verdict t) t (judge_tasks env verdict ts) (marked_tasks verdict ts)
      (judge_tasks-stored env verdict ts)

judge_tasks-Judged :
    (env : Env) (verdict : BackgroundTask → Option String) (ts : List BackgroundTask)
    → Judged verdict ts (judge_tasks env verdict ts).0
unfolding judge_tasks handle_stuck_task
judge_tasks-Judged env verdict [] = tt
judge_tasks-Judged env verdict (t ∷ ts) =
    let judged = judge_tasks-Judged env verdict ts in
    elim (Option-cases (verdict t)) [
      | inl e ↦ rw (e, judge_tasks) (inl (e, refl), judged)
      | inr (reason, e) ↦ rw (e, judge_tasks) (inr (reason, e, refl), judged)
    ]

-- checkForStuckTasks, with a detector and a repository that answers, marks exactly the stale tasks
-- that the detector calls stuck on their snapshots, with its reason, and stores each of them once, as
-- it is then.
pub check_for_stuck_tasks_lem :
    (env : Env) (detector : Detector) (ts : List BackgroundTask)
    (snapshots : String → List ResourceSnapshot)
    → let (ts', effects) = check_for_stuck_tasks env (some detector) (some ts) snapshots in
      Judged (λ t. detector t (snapshots t.id)) ts ts'
      × (stored_tasks effects ≡ marked_tasks (λ t. detector t (snapshots t.id)) ts ts')
unfolding check_for_stuck_tasks
check_for_stuck_tasks_lem env detector ts snapshots =
    let verdict : BackgroundTask → Option String = λ t. detector t (snapshots t.id) in
    (judge_tasks-Judged env verdict ts, judge_tasks-stored env verdict ts)
