-- ===== src/Messaging/Executor.antt =====
-- MessagingProgressReporter and MessagingTaskExecutorWrapper (messaging_adapter.go). The delegate
-- reporter is a function of the state `S` behind it, which answers with an error or nil.
pub mod Laws
use background_tasks.Base.{
  suc, ℕ, ◌≡◌, Bool, true, false, Option, none, some, List, [], ◌∷◌, String, Time,
}
use background_tasks.Task.{BackgroundTask, TaskStatus, Float64}
use background_tasks.Queue.{Reply, returned, raised, panicked}
use background_tasks.Report.{
  Report, progress, heartbeat, checkpoint, metrics, log, Program, Reporter, execute,
}
use background_tasks.Events.{
  BackgroundTaskEvent, TaskEventType, new_background_task_event, paused, resumed, cancelled,
}
use background_tasks.Events.Publisher.{TaskEventPublisher, Outcome, publish}
use background_tasks.Events.Messages.{
  publish_task_progress, publish_task_completed, publish_task_failed, publish_task_cancelled,
}

-- The event id and the instant of the next event, as a function of how many were made.
abbrev pub Stamps : Type 0
Stamps = ℕ → String × Time

pub record Messaging (S : Type 0) : Type 0 where
  pub inner : S
  pub publisher : TaskEventPublisher
  pub made : ℕ

-- A publishing error is only logged.
abbrev pub reply_of : {A : Type 0} → Outcome → A → Reply A
reply_of Outcome.panicked a = panicked
reply_of (Outcome.done err) a = returned a

module _ {S : Type 0} (delegate : S → Report → S × Option String)
    (answer : BackgroundTaskEvent → Option String) (stamps : Stamps) (hundred : Float64) where
  abbrev pub published : Messaging S → TaskEventPublisher × Outcome → Messaging S
  published s (p, out) = record s { publisher = p; made = suc s.made }

  -- ReportProgress writes the task first, then asks the delegate.
  unfoldable pub report_progress :
      Messaging S
      → BackgroundTask
      → Float64
      → String
      → Messaging S × BackgroundTask × Reply (Option String)
  report_progress s t percent message =
      let t' = record t { progress = percent; progress_message = some message } in
      let (inner, err) = delegate s.inner (progress percent message) in
      elim err [
        | some e ↦ (record s { inner = inner }, t', returned (some e))
        | none ↦
            let (id, now) = stamps s.made in
            let out = publish_task_progress answer s.publisher id now t' in
            (published (record s { inner = inner }) out, t', reply_of out.1 none)
      ]

  abbrev pub pass_on :
      Messaging S → BackgroundTask → Report → Messaging S × BackgroundTask × Reply (Option String)
  pass_on s t r =
      let (inner, err) = delegate s.inner r in (record s { inner = inner }, t, returned err)

  unfoldable pub messaging_reporter : Reporter (Messaging S)
  messaging_reporter s t (progress percent message) = report_progress s t percent message
  messaging_reporter s t heartbeat = pass_on s t heartbeat
  messaging_reporter s t (checkpoint d) = pass_on s t (checkpoint d)
  messaging_reporter s t (metrics d) = pass_on s t (metrics d)
  messaging_reporter s t (log level message fields) = pass_on s t (log level message fields)

  -- The end of Execute, once the executor has returned.
  unfoldable pub conclude :
      Messaging S
      → BackgroundTask
      → Option String
      → Messaging S × BackgroundTask × Reply (Option String)
  conclude s t (some msg) =
      let t' = record t { status = TaskStatus.failed; last_error = some msg } in
      let (id, now) = stamps s.made in
      let out = publish_task_failed answer s.publisher id now t' (some msg) in
      (published s out, t', reply_of out.1 (some msg))
  conclude s t none =
      let t' = record t { status = TaskStatus.completed; progress = hundred } in
      let (id, now) = stamps s.made in
      let out = publish_task_completed answer s.publisher id now t' none in
      (published s out, t', reply_of out.1 none)

  abbrev pub after_execute :
      Messaging S × BackgroundTask × Reply (Option String)
      → Messaging S × BackgroundTask × Reply (Option String)
  after_execute (s, t, returned err) = conclude s t err
  after_execute (s, t, raised e) = (s, t, raised e)
  after_execute (s, t, panicked) = (s, t, panicked)

  unfoldable pub wrapped_execute :
      Program → Messaging S → BackgroundTask → Messaging S × BackgroundTask × Reply (Option String)
  wrapped_execute program s t = after_execute (execute messaging_reporter program s t)

  -- After the executor's Pause, Resume or Cancel returned `err` and left the task as `t`.
  abbrev pub changed :
      Messaging S
      → BackgroundTask
      → TaskStatus
      → TaskEventType
      → Messaging S × BackgroundTask × Reply Unit
  changed s t status kind =
      let t' = record t { status = status } in
      let (id, now) = stamps s.made in
      let out = publish answer s.publisher (some (new_background_task_event id now kind t')) in
      (published s out, t', reply_of out.1 tt)

  unfoldable pub wrapped_pause :
      Messaging S
      → BackgroundTask
      → (List ℕ) × Option String
      → Messaging S × BackgroundTask × Reply (List ℕ)
  wrapped_pause s t (data_saved, some e) = (s, t, raised e)
  wrapped_pause s t (data_saved, none) =
      let (s', t', r) = changed s t TaskStatus.paused paused in
      (
        s',
        t',
        elim r [ returned u ↦ returned data_saved | raised e ↦ raised e | panicked ↦ panicked ],
      )

  unfoldable pub wrapped_resume :
      Messaging S → BackgroundTask → Option String → Messaging S × BackgroundTask × Reply Unit
  wrapped_resume s t (some e) = (s, t, raised e)
  wrapped_resume s t none = changed s t TaskStatus.running resumed

  unfoldable pub wrapped_cancel :
      Messaging S → BackgroundTask → Option String → Messaging S × BackgroundTask × Reply Unit
  wrapped_cancel s t (some e) = (s, t, raised e)
  wrapped_cancel s t none = changed s t TaskStatus.cancelled cancelled
