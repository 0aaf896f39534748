-- ===== src/Checks/Runner.antt =====
-- The repository of the challenge runner: runs, and the theorems at concrete inputs.
use background_tasks.Base.{
  pos, arith, refl, ℤ, ◌≡◌, refl, ◌==◌, ◌+◌, some, [], ◌∷◌, String, arith, if◌then◌else◌,
}
use background_tasks.Task.{BackgroundTask, TaskPriority, Models}
use background_tasks.Memory.{Heap}
use background_tasks.Runner.Repository.{new_in_memory_repository}
use background_tasks.Runner.Repository.Laws.{
  stores, edits, progress, call, write_all, perform, task_at, mapped, perform-mapped,
}
use background_tasks.Runner.Queueing.{Line, failed, passed, SectionClock, section2}
use background_tasks.Runner.Queueing.Passes.{section2_passes}
use background_tasks.Runner.Queueing.Passes.Outcomes.{section2_fails}
use background_tasks.Base.{List, ℕ, map, ◌↔◌, inl, inr, Option}
use background_tasks.Report.{Report}
use background_tasks.Runner.Locales.{
  FixtureInput, Job, message, jobs_from, round_id, check_from, execute_all, new_locale_executor,
}
use background_tasks.Runner.Locales.RoundTrip.{Occurs, round_trip_passes}
use background_tasks.Checks.Samples.{sample_task, sample_models}

abbrev objects : Heap
objects a = if a == 0 then sample_task "a" TaskPriority.high else sample_task "b" TaskPriority.low

perform-mapped_example :
    let r = write_all (new_in_memory_repository objects) (call (stores 0) ∷ call (stores 1) ∷ []) in
    task_at (perform r (edits "a" (progress 50 "half"))) "a"
    ≡ mapped r (edits "a" (progress 50 "half")) "a"
perform-mapped_example =
    perform-mapped objects (call (stores 0) ∷ call (stores 1) ∷ []) (edits "a" (progress 50 "half"))
      "a"

-- Each reading of the clock is a second after the one before.
abbrev section_clock : SectionClock
section_clock = record {
  enqueued = λ i. record { stamp = 10 + i; created = 10 + i; updated = 10 + i };
  first_rounds = λ i. 20 + i;
  first_claim = 30;
  requeued = 40;
  updated = 41;
  second_rounds = λ i. 50 + i;
  second_claim = 60;
  buried = 70;
}

abbrev new_task : String → String → BackgroundTask
new_task task_type name = record (sample_task "" TaskPriority.normal) {
  task_type = task_type;
  task_name = name;
}

section2_passes_example :
    section2 sample_models new_task objects ("en" ∷ "sr" ∷ "ja" ∷ []) section_clock
    ≡ passed "GetPendingCount"
      ∷ passed "GetQueueDepth"
      ∷ passed "Peek"
      ∷ passed "no-claim invariant"
      ∷ passed "priority-order"
      ∷ passed "Requeue"
      ∷ passed "MoveToDeadLetter"
      ∷ passed "GetTask"
      ∷ []
section2_passes_example =
    section2_passes sample_models new_task objects "en" "sr" "ja" [] section_clock
      (record { critical_first = refl; normal_first = refl }) (omega arith) (omega arith)

-- A payload that is the message itself, and one rune for each byte.
abbrev plain_payload : String → String → String
plain_payload locale text = text

abbrev ten_runes : String → ℕ
ten_runes s = 10

abbrev inputs : List FixtureInput
inputs =
    record {
      locale = "en";
      task_name = "report";
      payload_message = "Hello";
      expected_min_runes = 5;
    }
    ∷ record {
      locale = "sr";
      task_name = "report";
      payload_message = "Zdravo";
      expected_min_runes = 6;
    }
    ∷ []

-- The second job is executed first, and the first one twice.
abbrev shuffled : List Job
shuffled =
    record { id = round_id 1 "sr"; payload = "Zdravo" }
    ∷ record { id = round_id 0 "en"; payload = "Hello" }
    ∷ record { id = round_id 0 "en"; payload = "Hello" }
    ∷ []

shuffled_same :
    (j : Job) → Occurs j shuffled ↔ Occurs j (jobs_from plain_payload ten_runes 0 inputs)
unfolding jobs_from
shuffled_same j = (there, back)
  where
    there : Occurs j shuffled → Occurs j (jobs_from plain_payload ten_runes 0 inputs)
    there (inl e) = inr (inl e)
    there (inr (inl e)) = inl e
    there (inr (inr (inl e))) = inl e
    there (inr (inr (inr o))) = absurd o

    back : Occurs j (jobs_from plain_payload ten_runes 0 inputs) → Occurs j shuffled
    back (inl e) = inr (inl e)
    back (inr (inl e)) = inl e
    back (inr (inr o)) = absurd o

-- A reporter that fails every time.
abbrev failing_report : Unit {0} → String → Report → Unit {0} × Option String
failing_report s id r = (s, some "database is locked")

round_trip_passes_example :
    check_from plain_payload ten_runes
      (execute_all failing_report message (λ n. n) (tt, new_locale_executor) shuffled).1
      0
      inputs
    ≡ map (λ x. passed x.locale) inputs
round_trip_passes_example =
    round_trip_passes failing_report message (λ n. n) plain_payload ten_runes tt shuffled inputs
      shuffled_same
      (
        record { decodes = refl; long_enough = omega arith },
        (record { decodes = refl; long_enough = omega arith }, tt),
      )

-- The weights of the lifecycle document.
abbrev documented_weight : TaskPriority → ℤ
documented_weight TaskPriority.critical = pos 4
documented_weight TaskPriority.high = pos 3
documented_weight TaskPriority.normal = pos 2
documented_weight _ = pos 1

abbrev documented_models : Models
documented_models = record sample_models { weight = documented_weight }

section2_fails_example :
    (others : List Line) × (section2 documented_models new_task objects
        ("en" ∷ "sr" ∷ "ja" ∷ [])
        section_clock
      ≡ passed "GetPendingCount"
        ∷ passed "GetQueueDepth"
        ∷ passed "Peek"
        ∷ passed "no-claim invariant"
        ∷ failed "priority-order"
        ∷ others)
section2_fails_example =
    section2_fails documented_models new_task
      (record { critical = refl; normal = refl; low = refl }) objects "en" "sr" "ja" section_clock
      [] (omega arith)
