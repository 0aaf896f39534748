-- ===== src/Resources/Monitors/Laws.antt =====
-- What holds of the monitors after any history (resource_monitor.go).
use background_tasks.Base.{
  ℕ, ◌≡◌, refl, sym, ◌∙◌, ap, ◌⊎◌, inl, inr, ℤ, true, false, none, some, String, Time, Duration,
  lookup, delete, lookup-delete, get_elem?, arith, Option-cases, Bool-cases,
}
use text.Mathlib.TextEquality.{eq_iff}
use background_tasks.Postgres.{Answer, ok, failed}
use background_tasks.Stuck.{ResourceSnapshot}
use background_tasks.Resources.Monitors.{
  ProcessMonitor, Monitors, Failure, not_active, no_snapshot, set_at, start_monitoring,
  stop_monitoring, close_monitor, done, get_latest_snapshot, snapshot_in, begin_loop, tick, Step,
  Reach, starts, stops, begins, ticks, ends, start, next,
}
use background_tasks.Resources.Monitors.Consistent.{IsConsistent, rewritten, appended, closed}

start-IsConsistent :
    (s : Monitors) (task_id : String) (pid : ℤ) (interval : Duration)
    → IsConsistent s
    → IsConsistent (start_monitoring s task_id pid interval).0
unfolding start_monitoring
start-IsConsistent s task_id pid interval kept = elim (Option-cases (lookup task_id s.monitors)) [
  | inl e ↦ rw (e, start_monitoring) (appended s task_id _ e refl refl refl kept)
  | inr (i, e) ↦ rw (e, start_monitoring) kept
]

-- StopMonitoring of a task that has a monitor closes it.
stop_cases :
    (s : Monitors) (task_id : String)
    → IsConsistent s
    → ((lookup task_id s.monitors ≡ none) × (stop_monitoring s task_id ≡ (s, done)))
      ⊎ ((i : ℕ) × (pm : ProcessMonitor) × (lookup task_id s.monitors ≡ some i)
          × (get_elem? s.made i ≡ some pm)
          × (pm.task_id ≡ task_id)
          × (stop_monitoring s task_id ≡ (
            record s {
              made = set_at i (record pm { stopped = true }) s.made;
              monitors = delete task_id s.monitors;
            },
            done,
          )))
unfolding stop_monitoring close_monitor
stop_cases s task_id kept = elim (Option-cases (lookup task_id s.monitors)) [
  | inl e ↦ inl (e, simp (e, stop_monitoring))
  | inr (i, e) ↦
      let (pm, at, named, live) = kept.listed task_id i e in
      inr (i, pm, e, at, named, simp (e, stop_monitoring, at, close_monitor, live))
]

stop-IsConsistent :
    (s : Monitors) (task_id : String) → IsConsistent s → IsConsistent (stop_monitoring s task_id).0
stop-IsConsistent s task_id kept = elim (stop_cases s task_id kept) [
  | inl (e, q) ↦ rw q kept
  | inr (i, pm, e, at, named, q) ↦ rw q (closed s task_id i pm e at named kept)
]

tick-IsConsistent :
    (s : Monitors) (i : ℕ) (pm : ProcessMonitor) (answer : Answer ResourceSnapshot)
    → get_elem? s.made i ≡ some pm
    → IsConsistent s
    → IsConsistent (tick s i pm answer)
unfolding tick
tick-IsConsistent s i pm (failed e) at kept = kept
tick-IsConsistent s i pm (ok sample) at kept =
    let snapshot = record sample { task_id = pm.task_id } in
    let c =
      rewritten s i pm (record pm { last_snapshot = some snapshot }) at refl refl
        (λ other e. ap (λ r. r.task_id) (sym (the_same snapshot other e))) kept in
    record { listed = c.listed; opened = c.opened; own = c.own }
  where
    the_same : (a b : ResourceSnapshot) → some a ≡ some b → a ≡ b
    the_same a b e = cc

module _ (sample : ℤ → Time → Answer ResourceSnapshot) where
  Step-IsConsistent : {s s' : Monitors} → Step sample s s' → IsConsistent s → IsConsistent s'
  Step-IsConsistent {s} (starts task_id pid interval) kept =
      start-IsConsistent s task_id pid interval kept
  Step-IsConsistent {s} (stops task_id) kept = stop-IsConsistent s task_id kept
  Step-IsConsistent {s} (begins i pm at fresh) kept =
      rewritten s i pm (begin_loop pm) at refl refl (λ snap e. kept.own i pm snap at e) kept
  Step-IsConsistent {s} (ticks i pm now at running) kept = tick-IsConsistent s i pm _ at kept
  Step-IsConsistent {s} (ends i pm at running stopped) kept =
      rewritten s i pm _ at refl refl (λ snap e. kept.own i pm snap at e) kept

  -- After any history of calls and of rounds of the loops, the map holds under each task the one
  -- monitor of it that has not been stopped and nothing else, and the last snapshot of a monitor,
  -- stopped or not, is of its own task.
  pub Reach-IsConsistent : {s : Monitors} → Reach sample s → IsConsistent s
  unfolding lookup
  Reach-IsConsistent (start has_repository) = record {
    listed = λ id i h. ground arith;
    opened = λ i pm h live. ground arith;
    own = λ i pm snapshot h k. ground arith;
  }
  Reach-IsConsistent (next reach step) = Step-IsConsistent step (Reach-IsConsistent reach)

  no_entry : (s : Monitors) (id : String) → lookup id (delete id s.monitors) ≡ none
  no_entry s id = ground (arith, lookup-delete id id s.monitors, eq_iff id id)

  no_latest :
      (s : Monitors) (task_id : String)
      → lookup task_id s.monitors ≡ none
      → get_latest_snapshot s task_id ≡ inl (not_active task_id)
  unfolding get_latest_snapshot
  no_latest s task_id e = simp (e, get_latest_snapshot)

  none_opened : {i : ℕ} → none ≡ some i → ⊥
  none_opened e = cc

  latest_without :
      (s : Monitors) (task_id : String) (i : ℕ) (pm : ProcessMonitor)
      → lookup task_id s.monitors ≡ some i
      → get_elem? s.made i ≡ some pm
      → pm.last_snapshot ≡ none
      → get_latest_snapshot s task_id ≡ inl (no_snapshot task_id)
  unfolding get_latest_snapshot
  latest_without s task_id i pm e at none_yet =
      simp (e, get_latest_snapshot, at, snapshot_in, none_yet)

  latest_with :
      (s : Monitors) (task_id : String) (i : ℕ) (pm : ProcessMonitor) (last : ResourceSnapshot)
      → lookup task_id s.monitors ≡ some i
      → get_elem? s.made i ≡ some pm
      → pm.last_snapshot ≡ some last
      → get_latest_snapshot s task_id ≡ inr last
  unfolding get_latest_snapshot
  latest_with s task_id i pm last e at is_last =
      simp (e, get_latest_snapshot, at, snapshot_in, is_last)

  stop_leaves_none :
      (s : Monitors) (task_id : String)
      → IsConsistent s
      → lookup task_id (stop_monitoring s task_id).0.monitors ≡ none
  stop_leaves_none s task_id kept = elim (stop_cases s task_id kept) [
    | inl (e, q) ↦ rw q e
    | inr (i, pm, e, at, named, q) ↦ rw q (no_entry s task_id)
  ]

  pub stop_is_done :
      (s : Monitors) (task_id : String) → IsConsistent s → (stop_monitoring s task_id).1 ≡ done
  stop_is_done s task_id kept = elim (stop_cases s task_id kept) [
    | inl (e, q) ↦ rw q refl
    | inr (i, pm, e, at, named, q) ↦ rw q refl
  ]

  -- After any history StopMonitoring ends without a panic, since no channel is closed twice; then
  -- every monitor that was ever made for the task is stopped, and the task has no snapshot.
  pub stop_monitoring_lem :
      {s : Monitors} (task_id : String) (i : ℕ) (pm : ProcessMonitor)
      → Reach sample s
      → get_elem? (stop_monitoring s task_id).0.made i ≡ some pm
      → pm.task_id ≡ task_id
      → ((stop_monitoring s task_id).1 ≡ done)
        × (pm.stopped ≡ true)
        × (get_latest_snapshot (stop_monitoring s task_id).0 task_id ≡ inl (not_active task_id))
  stop_monitoring_lem {s} task_id i pm reach at named =
      let kept = Reach-IsConsistent reach in
      let empty = stop_leaves_none s task_id kept in
      let kept' = stop-IsConsistent s task_id kept in
      (
        stop_is_done s task_id kept,
        elim (Bool-cases pm.stopped) [
          | inl e ↦ e
          | inr e ↦ absurd (
              none_opened (
                sym empty
                ∙ ap (λ id. lookup id (stop_monitoring s task_id).0.monitors) (sym named)
                ∙ kept'.opened i pm at e))
        ],
        no_latest (stop_monitoring s task_id).0 task_id empty,
      )

  -- A snapshot that GetLatestSnapshot answers after any history is of the task asked for, and it is
  -- the last one of the monitor of that task that has not been stopped: a round that a stopped
  -- monitor still makes does not show.
  pub get_latest_snapshot_lem :
      {s : Monitors} (task_id : String) (snapshot : ResourceSnapshot)
      → Reach sample s
      → get_latest_snapshot s task_id ≡ inr snapshot
      → (snapshot.task_id ≡ task_id)
        × ((i : ℕ) × (pm : ProcessMonitor) × (get_elem? s.made i ≡ some pm)
            × (pm.task_id ≡ task_id)
            × (pm.stopped ≡ false)
            × (pm.last_snapshot ≡ some snapshot))
  get_latest_snapshot_lem {s} task_id snapshot reach h =
      let kept = Reach-IsConsistent reach in
      elim (Option-cases (lookup task_id s.monitors)) [
        | inl e ↦ absurd (not_both (no_latest s task_id e) h)
        | inr (i, e) ↦
            let (pm, at, named, live) = kept.listed task_id i e in
            elim (Option-cases pm.last_snapshot) [
              | inl none_yet ↦ absurd (not_both (latest_without s task_id i pm e at none_yet) h)
              | inr (last, is_last) ↦
                  let same = the_same (latest_with s task_id i pm last e at is_last) h in
                  let is_it = is_last ∙ ap some same in
                  (kept.own i pm snapshot at is_it ∙ named, (i, pm, at, named, live, is_it))
            ]
      ]
    where
      not_both : {f : Failure} {r : Failure ⊎ ResourceSnapshot} → r ≡ inl f → r ≡ inr snapshot → ⊥
      not_both a b = cc

      the_same :
          {last : ResourceSnapshot} {r : Failure ⊎ ResourceSnapshot}
          → r ≡ inr last
          → r ≡ inr snapshot
          → last ≡ snapshot
      the_same a b = cc
