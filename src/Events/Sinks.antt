-- ===== src/Events/Sinks.antt =====
-- The implementations of EventPublisher: NoOpEventPublisher and LoggingEventPublisher
-- (event_publisher.go), and the countingPublisher of the challenge runner
-- (challenges/runner/main.go). None returns an error, and Publish is given as the state behind it.
use background_tasks.Base.{
  ℕ, suc, ◌+◌, ◌≡◌, refl, ap, Bool, true, Option, none, some, List, [], ◌∷◌, ◌++◌, String, lookup,
  insert, lookup-insert, str_eq, eq_iff, Bool-cases, inl, inr, false, if◌then◌else◌, arith,
}
use background_tasks.Task.{TaskStatus, Float64}
use background_tasks.Events.{TaskEventType, type_name, BackgroundTaskEvent}
use background_tasks.Events.Publisher.{TaskEventPublisher, returned, is_absent}
use background_tasks.Events.Publisher.Runs.{Run, count_of}
use background_tasks.Events.Publisher.Drain.{GoesOn, stop_drains}

-- NoOpEventPublisher leaves everything as it is.
abbrev pub no_op_publish : {E : Type 0} → E → BackgroundTaskEvent → E
no_op_publish world e = world

-- What LoggingEventPublisher gives to Debugf, before it is formatted.
pub record LogLine : Type 0 where
  pub event_type : TaskEventType
  pub task_id : String
  pub status : TaskStatus
  pub progress : Float64

abbrev pub logging_publish : List LogLine → BackgroundTaskEvent → List LogLine
logging_publish log e =
    log
    ++ record {
      event_type = e.event_type;
      task_id = e.task_id;
      status = e.status;
      progress = e.progress;
    }
      ∷ []

-- map[TaskEventType]int
abbrev pub EventCounts : Type 0
EventCounts = List (String × ℕ)

abbrev count_or_zero : Option ℕ → ℕ
count_or_zero none = 0
count_or_zero (some n) = n

unfoldable pub events_counted : EventCounts → TaskEventType → ℕ
events_counted counts type = count_or_zero (lookup (type_name type) counts)

unfoldable pub counting_publish : EventCounts → BackgroundTaskEvent → EventCounts
counting_publish counts e =
    insert (type_name e.event_type) (suc (events_counted counts e.event_type)) counts

-- The state behind the calls of Publish, in order.
unfoldable pub count_calls : EventCounts → List BackgroundTaskEvent → EventCounts
count_calls counts [] = counts
count_calls counts (e ∷ es) = count_calls (counting_publish counts e) es

abbrev pub of_type : TaskEventType → BackgroundTaskEvent → Bool
of_type type e = str_eq (type_name e.event_type) (type_name type)

counting_publish-counted :
    (counts : EventCounts) (e : BackgroundTaskEvent) (type : TaskEventType)
    → events_counted (counting_publish counts e) type
      ≡ (if of_type type e then suc (events_counted counts type) else events_counted counts type)
unfolding events_counted counting_publish
counting_publish-counted counts e type = elim (Bool-cases (of_type type e)) [
  | inl same ↦ rw (lookup-insert key (type_name type) next counts) (
      rw same
        (ap (λ k. suc (count_or_zero (lookup k counts))) ((eq_iff key (type_name type)).0 same)))
  | inr other ↦ rw (lookup-insert key (type_name type) next counts) (rw other refl)
]
  where
    key : String
    key = type_name e.event_type

    next : ℕ
    next = suc (events_counted counts e.event_type)

count_calls-counted :
    (es : List BackgroundTaskEvent) (counts : EventCounts) (type : TaskEventType)
    → events_counted (count_calls counts es) type
      ≡ events_counted counts type + count_of (of_type type) es
unfolding count_calls count_of
count_calls-counted [] counts type = omega arith
count_calls-counted (e ∷ es) counts type = ground (
  arith,
  count_calls-counted es (counting_publish counts e) type,
  counting_publish-counted counts e type,
)

-- With the countingPublisher behind it a publisher that was started and then stopped goes on to
-- its end by its own steps, and then the count of each type of event is the number of the events
-- of that type that Publish has taken on.
pub stop_counts :
    {es : List BackgroundTaskEvent} {p : TaskEventPublisher}
    → Run (λ e. none) es p
    → p.stopped ≡ true
    → is_absent p.loop ≡ false
    → (q : TaskEventPublisher) × GoesOn p q
      × (q.loop ≡ returned)
      × ((type : TaskEventType)
          → events_counted (count_calls [] q.calls) type ≡ count_of (of_type type) es)
unfolding events_counted lookup
stop_counts {es} {p} r s on =
    let (q, run, end, all) = stop_drains (λ e. none) r s on in
    (q, run, end, λ type. ground (arith, count_calls-counted q.calls [] type, all (of_type type)))
