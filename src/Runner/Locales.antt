-- ===== src/Runner/Locales.antt =====
-- The executor of the challenge runner and the round trip that its first section checks
-- (localeExecutor and section1QueueAndWorkerPool in challenges/runner/main.go). JSON and the count of
-- runes are parameters. A payload stands for the task that carries it.
pub mod RoundTrip
use Prim.Native.String.{◌++◌ as string_append}
use background_tasks.Base.{
  ℕ, zero, suc, ◌≡◌, Bool, true, false, Option, none, some, List, [], ◌∷◌, ◌++◌, String, lookup,
  insert, str_eq, ltb, if◌then◌else◌, decimal,
}
use background_tasks.Report.{Report, progress, heartbeat}
use background_tasks.Runner.Queueing.{Line, passed, failed}

-- What json.Unmarshal makes of a payload: its message, or an error.
pub data Decoded : Type 0 where
  message : String → Decoded
  malformed : String → Decoded

pub record LocaleExecutor : Type 0 where
  pub processed : List (String × String)
  pub failures : List String

abbrev pub new_locale_executor : LocaleExecutor
new_locale_executor = record { processed = []; failures = [] }

pub record FixtureInput : Type 0 where
  pub locale : String
  pub task_name : String
  pub payload_message : String
  pub expected_min_runes : ℕ

-- A task as the executor sees it.
pub record Job : Type 0 where
  pub id : String
  pub payload : String

module _ {S : Type 0} (report : S → String → Report → S × Option String) (decode : String → Decoded)
    (percent : ℕ → ℕ) where
  -- Execute: the errors of the reporter are dropped. `percent` is the conversion to float64.
  unfoldable pub execute : S × LocaleExecutor → Job → (S × LocaleExecutor) × Option String
  execute (s, e) j = elim (decode j.payload) [
    | malformed err ↦ (
      (
        s,
        record e {
          failures =
              e.failures
              ++ string_append "task " (string_append j.id (string_append ": unmarshal: " err))
                ∷ [];
        },
      ),
      some err,
    )
    | message text ↦
        let (s1, err1) = report s j.id (progress (percent 25) "decoded") in
        let (s2, err2) = report s1 j.id heartbeat in
        let e' = record e { processed = insert j.id text e.processed } in
        let (s3, err3) = report s2 j.id (progress (percent 100) "done") in ((s3, e'), none)
  ]

  -- Execute for each job in turn. Workers that run side by side share nothing of the executor but
  -- its two fields, which each Execute writes once, under its lock.
  unfoldable pub execute_all : S × LocaleExecutor → List Job → S × LocaleExecutor
  execute_all w [] = w
  execute_all w (j ∷ js) = execute_all (execute w j).0 js

abbrev pub seen : LocaleExecutor → String → Option String
seen e task_id = lookup task_id e.processed

-- fmt.Sprintf("round261-task-%d-%s", i, locale)
unfoldable pub round_id : ℕ → String → String
round_id i locale =
    string_append "round261-task-" (string_append (decimal i) (string_append "-" locale))

module _ (encode : String → String → String) (rune_count : String → ℕ) where
  -- The tasks that the section enqueues, from input `i` on.
  unfoldable pub jobs_from : ℕ → List FixtureInput → List Job
  jobs_from i [] = []
  jobs_from i (x ∷ xs) =
      record { id = round_id i x.locale; payload = encode x.locale x.payload_message }
      ∷ jobs_from (suc i) xs

  abbrev pub check_message : FixtureInput → Option String → Line
  check_message x none = failed x.locale
  check_message x (some got) =
      if str_eq got x.payload_message
      then (if ltb (rune_count got) x.expected_min_runes then failed x.locale else passed x.locale)
      else failed x.locale

  -- The loop of the round trip, from input `i` on.
  unfoldable pub check_from : LocaleExecutor → ℕ → List FixtureInput → List Line
  check_from e i [] = []
  check_from e i (x ∷ xs) = check_message x (seen e (round_id i x.locale)) ∷ check_from e (suc i) xs
