-- ===== src/Events/Messages.antt =====
-- The methods PublishTaskCreated to PublishTaskDeadLetter (events.go): each makes an event from the
-- task, adds what it was given, and publishes it. `retry_delay_ms` is the delay in whole
-- milliseconds. `result` is none for nil, and an error is given by its text.
use background_tasks.Base.{
  ℕ, pos, Option, none, some, List, [], ◌∷◌, String, Time, Duration, quot_ℤ, add_time,
}
use background_tasks.Task.{BackgroundTask}
use background_tasks.Events.{
  TaskEventType, BackgroundTaskEvent, new_background_task_event, MetaValue, text, number, instant,
  result, created, started, progress, completed, failed, stuck, cancelled, retrying, dead_letter,
}
use background_tasks.Events.Publisher.{TaskEventPublisher, Outcome, publish}

module _ (answer : BackgroundTaskEvent → Option String) (p : TaskEventPublisher) (event_id : String)
    (now : Time) (task : BackgroundTask) where
  abbrev event_of : TaskEventType → BackgroundTaskEvent
  event_of type = new_background_task_event event_id now type task

  abbrev publish_plain : TaskEventType → TaskEventPublisher × Outcome
  publish_plain type = publish answer p (some (event_of type))

  abbrev with_meta : TaskEventType → List (String × MetaValue) → BackgroundTaskEvent
  with_meta type entries = record (event_of type) { metadata = entries }

  unfoldable pub publish_task_created : TaskEventPublisher × Outcome
  publish_task_created = publish_plain created

  unfoldable pub publish_task_started : TaskEventPublisher × Outcome
  publish_task_started = publish_plain started

  unfoldable pub publish_task_progress : TaskEventPublisher × Outcome
  publish_task_progress = publish_plain progress

  unfoldable pub publish_task_cancelled : TaskEventPublisher × Outcome
  publish_task_cancelled = publish_plain cancelled

  unfoldable pub publish_task_completed : Option ℕ → TaskEventPublisher × Outcome
  publish_task_completed none = publish_plain completed
  publish_task_completed (some value) =
      publish answer p (some (with_meta completed (("result", result value) ∷ [])))

  unfoldable pub publish_task_failed : Option String → TaskEventPublisher × Outcome
  publish_task_failed none = publish_plain failed
  publish_task_failed (some err) =
      publish answer p
        (some (record (with_meta failed (("error_details", text err) ∷ [])) { error = err }))

  unfoldable pub publish_task_stuck : String → TaskEventPublisher × Outcome
  publish_task_stuck reason =
      publish answer p (some (with_meta stuck (("reason", text reason) ∷ [])))

  -- `later` is the second reading of the clock.
  unfoldable pub publish_task_retrying : Time → Duration → TaskEventPublisher × Outcome
  publish_task_retrying later delay = publish answer p (
      some (
        with_meta retrying (
          ("retry_delay_ms", number (quot_ℤ delay (pos 1000000)))
          ∷ ("next_attempt", instant (add_time later delay))
          ∷ [])))

  unfoldable pub publish_task_dead_letter : String → TaskEventPublisher × Outcome
  publish_task_dead_letter reason =
      publish answer p (some (with_meta dead_letter (("reason", text reason) ∷ [])))
