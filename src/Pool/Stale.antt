-- ===== src/Pool/Stale.antt =====
-- The round of the stuck detection: checkForStuckTasks and handleStuckTask (worker_pool.go).
pub mod Laws
pub mod Causes
use background_tasks.Base.{◌≡◌, Option, none, some, List, [], ◌∷◌, ◌++◌, String}
use background_tasks.EventData.{Data, text}
use background_tasks.Task.{BackgroundTask, TaskStatus}
use background_tasks.Stuck.{ResourceSnapshot}
use background_tasks.Pool.Execute.{
  Env, Effect, updated, logged, notified, counted, stuck, stuck_tasks, only_if,
}

unfoldable pub handle_stuck_task : Env → BackgroundTask → String → BackgroundTask × List Effect
handle_stuck_task env task reason =
    let t = record task { status = TaskStatus.stuck; last_error = some reason } in
    let details = ("reason", text reason) ∷ [] in
    (
      t,
      updated t
          ∷ logged t.id stuck details t.worker_id
          ∷ (only_if env.has_notifier (notified t stuck details)
              ++ only_if env.has_metrics (counted stuck_tasks)),
    )

-- The loop over the stale tasks; `verdict` is the detector's answer, `none` for "not stuck".
unfoldable pub judge_tasks :
    Env → (BackgroundTask → Option String) → List BackgroundTask → List BackgroundTask × List Effect
judge_tasks env verdict [] = ([], [])
judge_tasks env verdict (t ∷ ts) =
    let (ts', later) = judge_tasks env verdict ts in
    elim (verdict t) [
      | none ↦ (t ∷ ts', later)
      | some reason ↦ let (t', now) = handle_stuck_task env t reason in (t' ∷ ts', now ++ later)
    ]

abbrev pub Detector : Type 0
Detector = BackgroundTask → List ResourceSnapshot → Option String

-- The pool may have no detector. `stale` is what GetStaleTasks answers, none for an error, and
-- `snapshots` gives the last ten of a task, also where GetResourceSnapshots returns an error with
-- them. The result holds the tasks of the round as it leaves them.
unfoldable pub check_for_stuck_tasks :
    Env
    → Option Detector
    → Option (List BackgroundTask)
    → (String → List ResourceSnapshot)
    → List BackgroundTask × List Effect
check_for_stuck_tasks env none stale snapshots = ([], [])
check_for_stuck_tasks env (some detector) none snapshots = ([], [])
check_for_stuck_tasks env (some detector) (some ts) snapshots =
    judge_tasks env (λ t. detector t (snapshots t.id)) ts
