-- ===== src/EventData.antt =====
-- The data of an event, map[string]interface{} in LogEvent and in the notifications (interfaces.go):
-- the values that the package itself puts in.
use background_tasks.Base.{ℕ, ℤ, String, List, Time}
use background_tasks.Task.{Float64, TaskPriority}

pub data Value : Type 0 where
  text : String → Value
  percent : Float64 → Value
  number : ℤ → Value
  instant : Time → Value
  rank : TaskPriority → Value
  other : ℕ → Value

abbrev pub Data : Type 0
Data = List (String × Value)
