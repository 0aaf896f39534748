-- ===== src/Checks/Stale.antt =====
-- A round of the stuck detection with the detector of the package.
use background_tasks.Base.{◌≡◌, refl, true, some, List, [], ◌∷◌, String, map, lookup, ◌*◌, second}
use background_tasks.Task.{BackgroundTask, TaskStatus, TaskPriority}
use background_tasks.Stuck.{
  ResourceSnapshot, new_default_stuck_detector, is_stuck, check_heartbeat_timeout,
  get_stuck_threshold, snapshot_reason,
}
use background_tasks.Pool.Execute.{Env}
use background_tasks.Pool.Execute.Tally.{stored_tasks}
use background_tasks.Pool.Stale.{check_for_stuck_tasks, judge_tasks, handle_stuck_task}
use background_tasks.Pool.Stale.Laws.{marked_tasks}
use background_tasks.Pool.Stale.Causes.{default_detector, AllExplained, marked_for_cause}
use background_tasks.Checks.Samples.{sample_floats, sample_models, sample_task}

abbrev env : Env
env = record {
  has_monitor = true;
  has_notifier = true;
  has_metrics = true;
  on_requeue = λ t delay. t;
  on_dead_letter = λ t msg. t;
  hundred = 100000;
}

abbrev silent_task : BackgroundTask
silent_task = record (sample_task "s" TaskPriority.low) { status = TaskStatus.running }

abbrev live_task : BackgroundTask
live_task = record silent_task { id = "l"; last_heartbeat = some (100 * second) }

abbrev no_snapshots : String → List ResourceSnapshot
no_snapshots id = []

-- The silent task is marked and the live one is not.
marked_run :
    map
      (λ (t : BackgroundTask). t.status)
      (check_for_stuck_tasks env
        (some (
          default_detector sample_floats sample_models new_default_stuck_detector
            (λ t. 110 * second)
            (λ r. "stuck")))
        (some (silent_task ∷ live_task ∷ []))
        no_snapshots).0
    ≡ TaskStatus.stuck ∷ TaskStatus.running ∷ []
unfolding check_for_stuck_tasks judge_tasks handle_stuck_task is_stuck check_heartbeat_timeout
    get_stuck_threshold snapshot_reason lookup
marked_run = refl

marked_for_cause_example :
    let detector =
      default_detector sample_floats sample_models new_default_stuck_detector
        (λ t. 110 * second)
        (λ r. "stuck") in
    let (ts', effects) =
      check_for_stuck_tasks env
        (some detector)
        (some (silent_task ∷ live_task ∷ []))
        no_snapshots in
    AllExplained sample_floats sample_models new_default_stuck_detector
      (λ t. 110 * second)
      (λ r. "stuck")
      no_snapshots
      (silent_task ∷ live_task ∷ [])
      ts'
    × (stored_tasks effects
        ≡ marked_tasks (λ t. detector t (no_snapshots t.id)) (silent_task ∷ live_task ∷ []) ts')
marked_for_cause_example =
    marked_for_cause sample_floats sample_models new_default_stuck_detector (λ t. 110 * second)
      (λ r. "stuck") no_snapshots env (silent_task ∷ live_task ∷ [])
