-- ===== src/Pool/Wait/Laws.antt =====
-- When WaitForCompletion returns and what it returns (worker_pool.go).
use background_tasks.Base.{
  ℕ, ◌≡◌, ◌≢◌, refl, inl, inr, Bool, true, false, Option, none, some, List, [], ◌∷◌, ◌++◌, map,
  String, Duration, arith, All, if◌then◌else◌, Bool-cases, ◌∙◌, sym, subst, ap,
}
use background_tasks.Task.{BackgroundTask, TaskStatus, Float64}
use background_tasks.Float.{FloatOps}
use background_tasks.Pool.Wait.{
  WaitError, task_failed, task_cancelled, task_dead_letter, timeout_waiting, context_cancelled,
  get_failed, output_of, Poll, deadline, cancelled, fetched_nil, fetch_failed, fetched, WaitOutcome,
  panicked, returned, WaitRun, is_terminal_status, terminal_error, next_interval, initial_interval,
  after_poll, is_news, report, wait_loop, wait_for_completion, out_returned,
  wait_for_completion_with_output,
}

after_poll_outcome :
    (i : ℕ) (cs : List (Float64 × String)) (r : WaitRun) → (after_poll i cs r).outcome ≡ r.outcome
after_poll_outcome i [] r = refl
after_poll_outcome i (c ∷ cs) r = refl

-- None of the answers ends the wait.
abbrev pub AllOpen : List BackgroundTask → Type 0
AllOpen = All λ t. is_terminal_status t.status ≡ false

-- A task in this state is waited for.
abbrev pub IsUnderway : TaskStatus → Type 0
IsUnderway st =
    (st ≢ TaskStatus.completed)
    × (st ≢ TaskStatus.failed)
    × (st ≢ TaskStatus.cancelled)
    × (st ≢ TaskStatus.dead_letter)

-- The wait for a task that is found like this ends with the error.
pub data EndsWith (t : BackgroundTask) : Option WaitError → Type 0 where
  has_completed : t.status ≡ TaskStatus.completed → EndsWith t none
  has_failed :
      (message : String)
      → t.status ≡ TaskStatus.failed
      → t.progress_message ≡ some message
      → EndsWith t (some (task_failed message))
  has_failed_silently :
      t.status ≡ TaskStatus.failed
      → t.progress_message ≡ none
      → EndsWith t (some (task_failed "unknown error"))
  was_cancelled : t.status ≡ TaskStatus.cancelled → EndsWith t (some task_cancelled)
  is_buried : t.status ≡ TaskStatus.dead_letter → EndsWith t (some task_dead_letter)

underway-open : (st : TaskStatus) → IsUnderway st → is_terminal_status st ≡ false
underway-open TaskStatus.completed (a, b, c, d) = absurd (a refl)
underway-open TaskStatus.failed (a, b, c, d) = absurd (b refl)
underway-open TaskStatus.cancelled (a, b, c, d) = absurd (c refl)
underway-open TaskStatus.dead_letter (a, b, c, d) = absurd (d refl)
underway-open TaskStatus.unset h = refl
underway-open TaskStatus.pending h = refl
underway-open TaskStatus.running h = refl
underway-open TaskStatus.paused h = refl
underway-open TaskStatus.stuck h = refl
underway-open (TaskStatus.other s) h = refl

underway-AllOpen : (ts : List BackgroundTask) → All (λ u. IsUnderway u.status) ts → AllOpen ts
underway-AllOpen [] h = tt
underway-AllOpen (t ∷ ts) (h, hs) = (underway-open t.status h, underway-AllOpen ts hs)

ends_with :
    (t : BackgroundTask) (err : Option WaitError)
    → EndsWith t err
    → (is_terminal_status t.status ≡ true) × (terminal_error t.status t.progress_message ≡ err)
ends_with t err (has_completed e) = rw e (refl, refl)
ends_with t err (has_failed message e said) = rw (e, said) (refl, refl)
ends_with t err (has_failed_silently e silent) = rw (e, silent) (refl, refl)
ends_with t err (was_cancelled e) = rw e (refl, refl)
ends_with t err (is_buried e) = rw e (refl, refl)

only_completed :
    (st : TaskStatus) (msg : Option String)
    → is_terminal_status st ≡ true
    → terminal_error st msg ≡ none
    → st ≡ TaskStatus.completed
only_completed st msg h k = ground arith

module _ (ops : FloatOps) (callback : Bool) (task_id : String) (timeout : Duration) where
  abbrev run_of : ℕ → Float64 → List Poll → WaitRun
  run_of = wait_loop ops callback task_id timeout

  abbrev last_of : BackgroundTask → Float64 → Float64
  last_of t last = if is_news ops callback t last then t.progress else last

  loop_past :
      (i : ℕ) (last : Float64) (t : BackgroundTask) (polls : List Poll)
      → is_terminal_status t.status ≡ false
      → (run_of i last (fetched t ∷ polls)).outcome
        ≡ (run_of (next_interval i) (last_of t last) polls).outcome
  loop_past i last t polls e =
      unfold wait_loop in rw (after_poll_outcome i (report ops callback t last), e)

  loop_through :
      (i : ℕ) (last : Float64) (before : List BackgroundTask) (polls : List Poll)
      → AllOpen before
      → (i' : ℕ) × (last' : Float64) × ((run_of i last (map fetched before ++ polls)).outcome
          ≡ (run_of i' last' polls).outcome)
  loop_through i last [] polls h = (i, last, refl)
  loop_through i last (t ∷ ts) polls (h, hs) =
      let (i', last', e) = loop_through (next_interval i) (last_of t last) ts polls hs in
      (i', last', loop_past i last t _ h ∙ e)

  loop_ends :
      (i : ℕ) (last : Float64) (t : BackgroundTask) (polls : List Poll)
      → is_terminal_status t.status ≡ true
      → (run_of i last (fetched t ∷ polls)).outcome
        ≡ returned (some t) (terminal_error t.status t.progress_message)
  loop_ends i last t polls e =
      unfold wait_loop in rw (after_poll_outcome i (report ops callback t last), e)

  -- After any number of answers with a task that is not completed, failed, cancelled or in the dead
  -- letters: the first task in one of these states ends the wait with that task, and no error if it is
  -- completed, its message or "unknown error" if it failed, and an error of its own if it was cancelled
  -- or is in the dead letters; the deadline, the cancelled context and a failing GetByID each end it
  -- with no task and their own error; a nil task panics.
  pub wait_ends :
      (i : ℕ) (last : Float64) (before : List BackgroundTask) (rest : List Poll)
      (t : BackgroundTask) (err : Option WaitError) (e : String)
      → All (λ u. IsUnderway u.status) before
      → EndsWith t err
      → ((run_of i last (map fetched before ++ fetched t ∷ rest)).outcome ≡ returned (some t) err)
        × ((run_of i last (map fetched before ++ deadline ∷ rest)).outcome
            ≡ returned none (some (timeout_waiting task_id timeout)))
        × ((run_of i last (map fetched before ++ cancelled ∷ rest)).outcome
            ≡ returned none (some context_cancelled))
        × ((run_of i last (map fetched before ++ fetch_failed e ∷ rest)).outcome
            ≡ returned none (some (get_failed task_id e)))
        × ((run_of i last (map fetched before ++ fetched_nil ∷ rest)).outcome ≡ panicked)
  wait_ends i last before rest t err e underway ended =
      let h = underway-AllOpen before underway in
      let (i', last', p) = loop_through i last before (fetched t ∷ rest) h in
      let (done, told) = ends_with t err ended in
      (
        p ∙ loop_ends i' last' t rest done ∙ ap (returned (some t)) told,
        (loop_through i last before (deadline ∷ rest) h).2 ∙ (unfold wait_loop in refl),
        (loop_through i last before (cancelled ∷ rest) h).2 ∙ (unfold wait_loop in refl),
        (loop_through i last before (fetch_failed e ∷ rest) h).2 ∙ (unfold wait_loop in refl),
        (loop_through i last before (fetched_nil ∷ rest) h).2 ∙ (unfold wait_loop in refl),
      )

  loop_success :
      (i : ℕ) (last : Float64) (polls : List Poll) (t : BackgroundTask)
      → (run_of i last polls).outcome ≡ returned (some t) none
      → (t.status ≡ TaskStatus.completed)
        × (before : List BackgroundTask) × (rest : List Poll) × (polls
            ≡ map fetched before ++ fetched t ∷ rest)
        × AllOpen before
  loop_success i last [] t h = unfold wait_loop in cc
  loop_success i last (deadline ∷ polls) t h = unfold wait_loop in cc
  loop_success i last (cancelled ∷ polls) t h = unfold wait_loop in cc
  loop_success i last (fetched_nil ∷ polls) t h = unfold wait_loop in cc
  loop_success i last (fetch_failed e ∷ polls) t h = unfold wait_loop in cc
  loop_success i last (fetched s ∷ polls) t h = elim (Bool-cases (is_terminal_status s.status)) [
    | inl e ↦
        let ends = sym (loop_ends i last s polls e) ∙ h in
        let same : s ≡ t = cc ends in
        let no_error : terminal_error s.status s.progress_message ≡ none = cc ends in
        (
          subst (λ u. u.status ≡ TaskStatus.completed) same
              (only_completed s.status s.progress_message e no_error),
          [],
          polls,
          ap (λ u. fetched u ∷ polls) same,
          tt,
        )
    | inr e ↦
        let (done, before, rest, split, still_open) =
          loop_success (next_interval i) (last_of s last) polls t
            (sym (loop_past i last s polls e) ∙ h) in
        (done, s ∷ before, rest, ap (◌∷◌ (fetched s)) split, (e, still_open))
  ]

  -- WaitForCompletion returns a task with no error only if the task is completed, and then it is
  -- the first answer in a terminal state.
  pub wait_success :
      (minus_one : Float64) (polls : List Poll) (t : BackgroundTask)
      → (wait_for_completion ops callback task_id timeout minus_one polls).outcome
        ≡ returned (some t) none
      → (t.status ≡ TaskStatus.completed)
        × (before : List BackgroundTask) × (rest : List Poll) × (polls
            ≡ map fetched before ++ fetched t ∷ rest)
        × AllOpen before
  unfolding wait_for_completion
  wait_success minus_one polls t h = loop_success initial_interval minus_one polls t h

output_never_none :
    (o : WaitOutcome) (t : Option BackgroundTask) (out : Option (List ℕ)) (err : Option WaitError)
    → output_of o ≡ out_returned t out err
    → (out ≡ none) × (err ≢ none)
output_never_none o t out err h = ground arith

-- WaitForCompletionWithOutput never returns an output, and never returns without an error: a
-- completed task comes with the error that no output is available.
pub no_output :
    (ops : FloatOps) (task_id : String) (timeout : Duration) (minus_one : Float64)
    (polls : List Poll) (t : Option BackgroundTask) (out : Option (List ℕ)) (err : Option WaitError)
    → wait_for_completion_with_output ops task_id timeout minus_one polls ≡ out_returned t out err
    → (out ≡ none) × (err ≢ none)
unfolding wait_for_completion_with_output
no_output ops task_id timeout minus_one polls t out err h = output_never_none _ t out err h
