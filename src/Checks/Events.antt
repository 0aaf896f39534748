-- ===== src/Checks/Events.antt =====
-- TaskEventPublisher: a run, and the theorems at concrete inputs.
use background_tasks.Base.{str_eq, ◌≡◌, refl, pos, Bool, true, Option, some, [], ◌∷◌, String}
use background_tasks.Task.{TaskPriority}
use background_tasks.Events.{BackgroundTaskEvent, new_background_task_event, created}
use background_tasks.Events.Publisher.{
  TaskEventPublisher, TaskEventPublisherConfig, new_task_event_publisher, publish, do_publish,
  start, stop, returned,
}
use background_tasks.Events.Publisher.Runs.{
  Run, created as fresh, published, started as begun, stopped, Run-kept, held, count_of,
}
use background_tasks.Events.Publisher.Drain.{GoesOn, stop_drains}
use background_tasks.Checks.Samples.{sample_task}

abbrev reject_all : BackgroundTaskEvent → Option String
reject_all e = some "broker down"

abbrev small_config : TaskEventPublisherConfig
small_config = record { enabled = true; async_publish = true; buffer_size = pos 1 }

abbrev event : String → BackgroundTaskEvent
event id = new_background_task_event id 5 created (sample_task "t1" TaskPriority.normal)

abbrev p0 : TaskEventPublisher
p0 = new_task_event_publisher true (some small_config)

abbrev p1 : TaskEventPublisher
p1 = record p0 { buffer = some (event "e1") ∷ [] }

-- The channel is full: the second event is handed over before the first.
abbrev p2 : TaskEventPublisher
p2 = record p1 { calls = event "e2" ∷ [] }

run2 : Run reject_all (event "e1" ∷ event "e2" ∷ []) p2
unfolding publish do_publish
run2 =
    published (published (fresh true (some small_config)) (some (event "e1")) refl)
      (some (event "e2")) refl

run3 : Run reject_all (event "e1" ∷ event "e2" ∷ []) (start p2)
run3 = begun run2 refl

abbrev p4 : TaskEventPublisher
p4 = record (start p2) { stopped = true }

run4 : Run reject_all (event "e1" ∷ event "e2" ∷ []) p4
unfolding stop start
run4 = stopped run3 refl

-- The events with the id "e2".
abbrev is_second : BackgroundTaskEvent → Bool
is_second e = str_eq e.event_id "e2"

Run-kept_example : count_of is_second (event "e1" ∷ event "e2" ∷ []) ≡ held is_second p2
Run-kept_example = Run-kept reject_all run2 is_second

stop_drains_example :
    (q : TaskEventPublisher) × GoesOn p4 q
    × (q.loop ≡ returned)
    × ((f : BackgroundTaskEvent → Bool)
        → count_of f (event "e1" ∷ event "e2" ∷ []) ≡ count_of f q.calls)
unfolding start
stop_drains_example = stop_drains reject_all run4 refl refl
