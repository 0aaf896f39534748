-- ===== src/Runner/Routing.antt =====
-- Of the fifth section of the challenge runner (section5MessagingAdapter in
-- challenges/runner/main.go): the table that says which topic each type of event belongs to.
use background_tasks.Base.{◌≡◌, refl, List, [], ◌∷◌, ◌++◌, String, str_eq, if◌then◌else◌}
use background_tasks.Events.{
  TaskEventType, created, started, progress, heartbeat, completed, stuck, cancelled, retrying,
  dead_letter, topic, type_name,
}
use background_tasks.Runner.Queueing.{Line, passed, line}

-- The topics are the values of the constants that the table names.
abbrev pub routing_table : List (TaskEventType × String)
routing_table =
    (created, "helixagent.events.tasks.created")
    ∷ (started, "helixagent.events.tasks.started")
    ∷ (progress, "helixagent.events.tasks.progress")
    ∷ (heartbeat, "helixagent.events.tasks.progress")
    ∷ (completed, "helixagent.events.tasks.completed")
    ∷ (TaskEventType.failed, "helixagent.events.tasks.failed")
    ∷ (stuck, "helixagent.events.tasks.stuck")
    ∷ (cancelled, "helixagent.events.tasks.cancelled")
    ∷ (retrying, "helixagent.events.tasks.retrying")
    ∷ (dead_letter, "helixagent.events.tasks.deadletter")
    ∷ []

-- A failure for each row that Topic disagrees with.
unfoldable pub misrouted : List (TaskEventType × String) → List Line
misrouted [] = []
misrouted ((evt, expected) ∷ rows) =
    let rest = misrouted rows in
    if str_eq (topic evt) expected then rest else Line.failed (type_name evt) ∷ rest

-- `allOK` is that there was no failure.
abbrev pub or_all_routed : List Line → List Line
or_all_routed [] = passed "TaskEventType.Topic" ∷ []
or_all_routed (l ∷ ls) = l ∷ ls

unfoldable pub report_routing : List Line
report_routing =
    or_all_routed (misrouted routing_table)
    ++ line "TaskEventType.String" (str_eq (type_name created) "task.created") ∷ []

-- Every row of the table agrees with Topic.
routing_passes : report_routing ≡ passed "TaskEventType.Topic" ∷ passed "TaskEventType.String" ∷ []
unfolding report_routing misrouted
routing_passes = refl
