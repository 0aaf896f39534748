-- ===== src/Report.antt =====
-- The interfaces ProgressReporter and TaskExecutor (interfaces.go) as they meet: what an executor
-- does while it runs is a program, which looks at its task, edits it and makes reports, and goes on
-- according to what it sees and to the errors that the reports return.
use background_tasks.Base.{ℕ, ◌≡◌, ap, Option, List, String}
use background_tasks.Task.{BackgroundTask, Float64}
use background_tasks.Queue.{Reply, returned, raised, panicked}

-- The calls of a ProgressReporter. `metrics` and the fields of `log` are lists of keys with numbers
-- that stand for the values.
pub data Report : Type 0 where
  progress : Float64 → String → Report
  heartbeat : Report
  checkpoint : List ℕ → Report
  metrics : List (String × ℕ) → Report
  log : String → String → List (String × ℕ) → Report

pub data Program : Type 0 where
  finish : Option String → Program
  look : (BackgroundTask → Program) → Program
  edit : (BackgroundTask → BackgroundTask) → Program → Program
  report : Report → (Option String → Program) → Program

-- A reporter over a state `S`, which holds the task too; its call may panic.
abbrev pub Reporter : Type 0 → Type 0
Reporter S = S → BackgroundTask → Report → S × BackgroundTask × Reply (Option String)

module _ {S : Type 0} (reporter : Reporter S) where
  -- What is left when the program ends: `raised` is not used, an error is returned.
  unfoldable pub execute : Program → S → BackgroundTask → S × BackgroundTask × Reply (Option String)
  execute (finish err) s t = (s, t, returned err)
  execute (look k) s t = execute (k t) s t
  execute (edit f p) s t = execute p s (f t)
  execute (report r k) s t =
      let (s', t', reply) = reporter s t r in
      elim reply [
        | returned err ↦ execute (k err) s' t'
        | raised e ↦ (s', t', raised e)
        | panicked ↦ (s', t', panicked)
      ]

  pub execute-report :
      (r : Report) (k : Option String → Program) (s s' : S) (t t' : BackgroundTask)
      (err : Option String)
      → reporter s t r ≡ (s', t', returned err)
      → execute (report r k) s t ≡ execute (k err) s' t'
  unfolding execute
  execute-report r k s s' t t' err h =
      ap
        (λ x. elim x.2 [
          | returned err' ↦ execute (k err') x.0 x.1
          | raised e ↦ (x.0, x.1, raised e)
          | panicked ↦ (x.0, x.1, panicked)
        ])
        h
