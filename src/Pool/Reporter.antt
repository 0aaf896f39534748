-- ===== src/Pool/Reporter.antt =====
-- taskProgressReporter (worker_pool.go): the ProgressReporter that the pool hands to an executor. The
-- repository and the notifier are parameters over a state `S`; `notifier` is none for nil. It passes
-- on the event's name and the data.
pub mod Laws
use background_tasks.Base.{
  ℕ, ◌≡◌, Bool, true, false, Option, none, some, List, [], ◌∷◌, String, lookup, insert,
}
use background_tasks.Task.{Float64}
use background_tasks.EventData.{Value, text, percent, other, Data}
use background_tasks.Report.{Report, progress, heartbeat, checkpoint, metrics, log}

pub data EventName : Type 0 where
  task_event_progress task_event_resource task_event_log : EventName

abbrev pub Notify : Type 0 → Type 0
Notify S = S → EventName → Data → S × Option String

-- The calls of TaskRepository that the reporter makes.
pub record ReportStore (S : Type 0) : Type 0 where
  pub update_progress : S → String → Float64 → String → S × Option String
  pub update_heartbeat : S → String → S × Option String
  pub save_checkpoint : S → String → List ℕ → S × Option String
  pub log_event : S → String → EventName → Data → String → S × Option String

abbrev pub values : List (String × ℕ) → Data
values [] = []
values ((k, n) ∷ m) = (k, other n) ∷ values m

-- The fields are written over the two entries that are there already.
unfoldable pub add_fields : Data → List (String × ℕ) → Data
add_fields d [] = d
add_fields d ((k, n) ∷ fields) = add_fields (insert k (other n) d) fields

abbrev pub log_data : String → String → List (String × ℕ) → Data
log_data level message fields =
    add_fields (("level", text level) ∷ ("message", text message) ∷ []) fields

module _ {S : Type 0} (store : ReportStore S) (notifier : Option (Notify S))
    (task_id worker_id : String) where
  -- The notifier's error is dropped.
  abbrev pub notified : S → EventName → Data → S
  notified s name d = elim notifier [ none ↦ s | some notify ↦ (notify s name d).0 ]

  unfoldable pub task_report : S → Report → S × Option String
  task_report s (progress value message) =
      let (s', err) = store.update_progress s task_id value message in
      elim err [
        | some e ↦ (s', some e)
        | none ↦ (
          notified s' task_event_progress
              (("progress", percent value) ∷ ("message", text message) ∷ []),
          none,
        )
      ]
  task_report s heartbeat = store.update_heartbeat s task_id
  task_report s (checkpoint d) = store.save_checkpoint s task_id d
  task_report s (metrics m) = elim notifier [
    | none ↦ (s, none)
    | some notify ↦ notify s task_event_resource (values m)
  ]
  task_report s (log level message fields) =
      let d = log_data level message fields in
      let (s', err) = store.log_event s task_id task_event_log d worker_id in
      (notified s' task_event_log d, none)
