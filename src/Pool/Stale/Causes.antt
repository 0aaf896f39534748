-- ===== src/Pool/Stale/Causes.antt =====
-- The stuck detection with the detector of the package (worker_pool.go, stuck_detector.go).
use background_tasks.Base.{
  ◌≡◌, refl, ◌∙◌, sym, ap, ◌⊎◌, inl, inr, Option, none, some, List, [], ◌∷◌, String, Time, arith,
}
use background_tasks.Float.{FloatOps}
use background_tasks.Task.{BackgroundTask, TaskStatus, Models}
use background_tasks.Stuck.{ResourceSnapshot, Reason, DefaultStuckDetector, is_stuck}
use background_tasks.Stuck.Causes.{Cause}
use background_tasks.Stuck.Laws.{is_stuck_sound}
use background_tasks.Pool.Execute.{Env}
use background_tasks.Pool.Stale.{Detector, check_for_stuck_tasks}
use background_tasks.Pool.Stale.Laws.{Judged, marked_tasks, check_for_stuck_tasks_lem}
use background_tasks.Pool.Execute.Tally.{stored_tasks}

module _ (ops : FloatOps) (m : Models) (d : DefaultStuckDetector) (clock : BackgroundTask → Time)
    (render : Reason → String) where
  -- IsStuck at the instant that `clock` gives for the task, with the texts of its reasons.
  abbrev pub text_of : Option Reason → Option String
  text_of none = none
  text_of (some r) = some (render r)

  abbrev pub default_detector : Detector
  default_detector t snaps = text_of (is_stuck ops m d (some t) snaps (clock t))

  module _ (snapshots : String → List ResourceSnapshot) where
    abbrev pub reason_of : BackgroundTask → Option Reason
    reason_of t = is_stuck ops m d (some t) (snapshots t.id) (clock t)

    -- What a round has done to a task, and why.
    abbrev pub Explained : BackgroundTask → BackgroundTask → Type 0
    Explained t t' =
        ((reason_of t ≡ none) × (t' ≡ t))
        ⊎ ((r : Reason) × Cause ops m d t (clock t) (snapshots t.id) r
            × (t' ≡ record t { status = TaskStatus.stuck; last_error = some (render r) }))

    abbrev pub AllExplained : List BackgroundTask → List BackgroundTask → Type 0
    AllExplained [] [] = Unit
    AllExplained [] (_ ∷ _) = ⊥
    AllExplained (_ ∷ _) [] = ⊥
    AllExplained (t ∷ ts) (t' ∷ ts') = Explained t t' × AllExplained ts ts'

    explained :
        (t t' : BackgroundTask) (found : Option Reason)
        → reason_of t ≡ found
        → ((text_of found ≡ none) × (t' ≡ t))
          ⊎ ((reason : String) × (text_of found ≡ some reason)
              × (t' ≡ record t { status = TaskStatus.stuck; last_error = some reason }))
        → Explained t t'
    explained t t' none e (inl (_, same)) = inl (e, same)
    explained t t' none e (inr (reason, told, _)) = absurd (ground arith)
    explained t t' (some r) e (inl (told, _)) = absurd (ground arith)
    explained t t' (some r) e (inr (reason, told, marked)) = inr (
      r,
      is_stuck_sound ops m d t (clock t) (snapshots t.id) r e,
      marked ∙ ap (λ err. record t { status = TaskStatus.stuck; last_error = err }) (sym told),
    )

    Judged-AllExplained :
        (ts ts' : List BackgroundTask)
        → Judged (λ t. default_detector t (snapshots t.id)) ts ts'
        → AllExplained ts ts'
    Judged-AllExplained [] [] h = tt
    Judged-AllExplained [] (t' ∷ ts') h = h
    Judged-AllExplained (t ∷ ts) [] h = h
    Judged-AllExplained (t ∷ ts) (t' ∷ ts') (one, rest) =
        (explained t t' (reason_of t) refl one, Judged-AllExplained ts ts' rest)

    -- With the detector of the package every task that checkForStuckTasks marks is marked for a cause
    -- that its fields and its snapshots show, and its error is the text of that reason; every other
    -- stale task is left as it was, and the detector has found no reason. The tasks that are
    -- stored are the marked ones, each once and as it is then, with its new status and error.
    pub marked_for_cause :
        (env : Env) (ts : List BackgroundTask)
        → let (ts', effects) =
            check_for_stuck_tasks env (some default_detector) (some ts) snapshots in
          AllExplained ts ts'
          × (stored_tasks effects ≡ marked_tasks (λ t. default_detector t (snapshots t.id)) ts ts')
    marked_for_cause env ts =
        let (judged, stored) = check_for_stuck_tasks_lem env default_detector ts snapshots in
        (Judged-AllExplained ts _ judged, stored)
