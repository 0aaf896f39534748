-- ===== src/Pool/Wait.antt =====
-- WaitForCompletion, WaitForCompletionWithOutput and isTerminalStatus (worker_pool.go). What the
-- select of the loop receives is a list: each entry is the end of the context or the answer of
-- GetByID after the sleep.
pub mod Laws
pub mod Reports
use background_tasks.Base.{
  ℕ, ◌*◌, ◌/◌, ◌≡◌, ℤ, Bool, true, false, not, ◌&&◌, Option, none, some, List, [], ◌∷◌, String,
  Duration, ltb, if◌then◌else◌,
}
use background_tasks.Task.{BackgroundTask, TaskStatus, Float64}
use background_tasks.Float.{FloatOps}

pub data WaitError : Type 0 where
  timeout_waiting : String → Duration → WaitError
  context_cancelled : WaitError
  get_failed : String → String → WaitError
  task_failed : String → WaitError
  task_cancelled task_dead_letter task_output_not_available : WaitError

-- `deadline` and `cancelled`: waitCtx.Done() with either error. The others come from the repository;
-- `fetched_nil` is a nil task with no error, which the loop would dereference.
pub data Poll : Type 0 where
  deadline cancelled fetched_nil : Poll
  fetch_failed : String → Poll
  fetched : BackgroundTask → Poll

-- `waiting`: the entries have run out.
pub data WaitOutcome : Type 0 where
  waiting panicked : WaitOutcome
  returned : Option BackgroundTask → Option WaitError → WaitOutcome

pub record WaitRun : Type 0 where
  pub outcome : WaitOutcome
  pub callbacks : List (Float64 × String)
  pub intervals : List ℕ

abbrev pub is_terminal_status : TaskStatus → Bool
is_terminal_status TaskStatus.completed = true
is_terminal_status TaskStatus.failed = true
is_terminal_status TaskStatus.cancelled = true
is_terminal_status TaskStatus.dead_letter = true
is_terminal_status _ = false

abbrev pub or_else : Option String → String → String
or_else none d = d
or_else (some s) d = s

-- The error that goes with a terminal status.
abbrev pub terminal_error : TaskStatus → Option String → Option WaitError
terminal_error TaskStatus.failed msg = some (task_failed (or_else msg "unknown error"))
terminal_error TaskStatus.cancelled msg = some task_cancelled
terminal_error TaskStatus.dead_letter msg = some task_dead_letter
terminal_error _ msg = none

abbrev pub initial_interval : ℕ
initial_interval = 100000000

abbrev pub max_interval : ℕ
max_interval = 2000000000

-- float64(pollInterval) * 1.5, cut to a whole number: exact on the values that occur, which are
-- even or below 2^53.
unfoldable pub next_interval : ℕ → ℕ
next_interval i =
    if ltb i max_interval
    then (if ltb max_interval (i * 3 / 2) then max_interval else i * 3 / 2)
    else i

abbrev pub stop_with : WaitOutcome → WaitRun
stop_with o = record { outcome = o; callbacks = []; intervals = [] }

abbrev pub after_poll : ℕ → List (Float64 × String) → WaitRun → WaitRun
after_poll i [] r = record r { intervals = i ∷ r.intervals }
after_poll i (c ∷ _) r = record r { callbacks = c ∷ r.callbacks; intervals = i ∷ r.intervals }

module _ (ops : FloatOps) (callback : Bool) where
  -- Progress is reported when it is not the last value reported.
  abbrev pub is_news : BackgroundTask → Float64 → Bool
  is_news t last = callback && not (ops.eq t.progress last)

  abbrev pub report : BackgroundTask → Float64 → List (Float64 × String)
  report t last = if is_news t last then (t.progress, or_else t.progress_message "") ∷ [] else []

module _ (ops : FloatOps) (callback : Bool) (task_id : String) (timeout : Duration) where
  unfoldable pub wait_loop : ℕ → Float64 → List Poll → WaitRun
  wait_loop i last [] = stop_with waiting
  wait_loop i last (deadline ∷ _) =
      stop_with (returned none (some (timeout_waiting task_id timeout)))
  wait_loop i last (cancelled ∷ _) = stop_with (returned none (some context_cancelled))
  wait_loop i last (fetched_nil ∷ _) = stop_with panicked
  wait_loop i last (fetch_failed e ∷ _) = record {
    outcome = returned none (some (get_failed task_id e));
    callbacks = [];
    intervals = i ∷ [];
  }
  wait_loop i last (fetched t ∷ polls) =
      let later =
        wait_loop (next_interval i) (if is_news ops callback t last then t.progress else last)
          polls in
      after_poll i (report ops callback t last) (
        if is_terminal_status t.status
        then stop_with (returned (some t) (terminal_error t.status t.progress_message))
        else later)

  unfoldable pub wait_for_completion : Float64 → List Poll → WaitRun
  wait_for_completion minus_one = wait_loop initial_interval minus_one

-- The task, the output and the error of WaitForCompletionWithOutput.
pub data OutputOutcome : Type 0 where
  out_waiting out_panicked : OutputOutcome
  out_returned : Option BackgroundTask → Option (List ℕ) → Option WaitError → OutputOutcome

abbrev pub output_of : WaitOutcome → OutputOutcome
output_of waiting = out_waiting
output_of panicked = out_panicked
output_of (returned t (some e)) = out_returned t none (some e)
output_of (returned none none) = out_returned none none (some task_output_not_available)
output_of (returned (some t) none) =
    if not t.config.capture_output
    then out_returned (some t) none (some task_output_not_available)
    else out_returned (some t) none (some task_output_not_available)

unfoldable pub wait_for_completion_with_output :
    FloatOps → String → Duration → Float64 → List Poll → OutputOutcome
wait_for_completion_with_output ops task_id timeout minus_one polls =
    output_of (wait_for_completion ops false task_id timeout minus_one polls).outcome
