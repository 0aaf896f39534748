-- ===== src/Stuck/Causes.antt =====
-- What has been seen of a task when IsStuck gives a reason (stuck_detector.go).
use background_tasks.Base.{
  ℕ, zero, suc, ◌≤◌, ◌≡◌, refl, ap, ◌∙◌, ◌⊎◌, inl, inr, ℤ, pos, ltb_ℤ, eqb_ℤ, eq_of_parts, true,
  false, none, some, List, [], ◌∷◌, Time, Duration, arith, Option-cases, since, length, eq_iff,
}
use background_tasks.Task.{BackgroundTask, Models}
use background_tasks.Float.{FloatOps}
use background_tasks.Stuck.Symptoms.{
  ShowsFreeze, ShowsStarvation, ShowsHang, ShowsLeak, is_process_frozen-ShowsFreeze,
  is_io_starved-ShowsStarvation, is_network_hung-ShowsHang, has_memory_leak-ShowsLeak,
}
use background_tasks.Stuck.{
  ResourceSnapshot, Reason, DefaultStuckDetector, get_stuck_threshold, effective_threshold,
  heartbeat_reason, check_heartbeat_timeout, is_process_frozen, check_resource_exhaustion,
  is_io_starved, is_network_hung, has_memory_leak, activity_from, is_endless_task_stuck,
  snapshot_reason, no_heartbeat_ever, no_heartbeat_for, exceeded_deadline, process_frozen,
  io_starved, network_hung, memory_leak, memory_exhaustion, fd_exhaustion, excessive_threads,
  zombie_state, critical_memory, no_activity,
}

module _ (ops : FloatOps) where
  -- The next `k` snapshots use no CPU and count the same bytes as the one before them in the list.
  abbrev pub Still : ResourceSnapshot → ℕ → List ResourceSnapshot → Type 0
  Still prev zero rest = Unit
  Still prev (suc k) [] = Unit
  Still prev (suc k) (s ∷ rest) =
      (ops.lt (ops.lit 0 0) s.cpu_percent ≡ false)
      × (s.io_read_bytes ≡ prev.io_read_bytes)
      × (s.io_write_bytes ≡ prev.io_write_bytes)
      × Still s k rest

  abbrev pub FiveIdle : List ResourceSnapshot → Type 0
  FiveIdle [] = ⊥
  FiveIdle (s ∷ rest) =
      (4 ≤ length rest) × (ops.lt (ops.lit 0 0) s.cpu_percent ≡ false) × Still s 4 rest

  same_count : (a b : ℤ) → eqb_ℤ a b ≡ true → a ≡ b
  same_count a b h = eq_of_parts a b (ground arith)

  activity_from-Still :
      (prev : ResourceSnapshot) (k : ℕ) (rest : List ResourceSnapshot)
      → activity_from ops prev k rest ≡ false
      → Still prev k rest
  unfolding activity_from
  activity_from-Still prev zero rest h = tt
  activity_from-Still prev (suc k) [] h = tt
  activity_from-Still prev (suc k) (s ∷ rest) h = (
    ground arith,
    same_count s.io_read_bytes prev.io_read_bytes (ground arith),
    same_count s.io_write_bytes prev.io_write_bytes (ground arith),
    activity_from-Still s k rest (ground arith),
  )

module _ (ops : FloatOps) (m : Models) (d : DefaultStuckDetector) (task : BackgroundTask)
    (now : Time) where
  -- The heartbeat is watched and stale under the threshold `t`.
  abbrev pub Stale : Duration → Type 0
  Stale t =
      (t ≡ effective_threshold (get_stuck_threshold d task.task_type) task)
      × (m.has_stale_heartbeat task t now ≡ true)

  -- The newest snapshot satisfies `P`.
  abbrev pub Newest : (ResourceSnapshot → Type 0) → List ResourceSnapshot → Type 0
  Newest P [] = ⊥
  Newest P (s ∷ rest) = P s

  abbrev pub Watched : List ResourceSnapshot → Type 0
  Watched snaps = (task.config.endless ≡ false) × (3 ≤ length snaps)

  -- What has been seen when a reason is given.
  abbrev pub Cause : List ResourceSnapshot → Reason → Type 0
  Cause snaps (no_heartbeat_ever t) =
      (task.config.endless ≡ false) × (task.last_heartbeat ≡ none) × Stale t
  Cause snaps (no_heartbeat_for e t) =
      (task.config.endless ≡ false)
      × ((beat : Time) × (task.last_heartbeat ≡ some beat) × (e ≡ since now beat))
      × Stale t
  Cause snaps exceeded_deadline = (task.config.endless ≡ false) × (m.is_overdue task now ≡ true)
  Cause snaps process_frozen = Watched snaps × ShowsFreeze ops snaps
  Cause snaps (memory_exhaustion p) =
      Watched snaps × Newest (λ s. (s.memory_percent ≡ p) × (ops.lt (ops.lit 95 0) p ≡ true)) snaps
  Cause snaps (fd_exhaustion n) =
      Watched snaps × Newest (λ s. (s.open_fds ≡ n) × (ltb_ℤ (pos 10000) n ≡ true)) snaps
  Cause snaps (excessive_threads n) =
      Watched snaps × Newest (λ s. (s.thread_count ≡ n) × (ltb_ℤ (pos 1000) n ≡ true)) snaps
  Cause snaps io_starved = Watched snaps × ShowsStarvation ops snaps
  Cause snaps network_hung = Watched snaps × ShowsHang ops snaps
  Cause snaps memory_leak = Watched snaps × ShowsLeak ops snaps
  Cause snaps zombie_state =
      (task.config.endless ≡ true)
      × Newest (λ s. (s.process_state ≡ "zombie") ⊎ (s.process_state ≡ "Z")) snaps
  Cause snaps critical_memory =
      (task.config.endless ≡ true)
      × Newest (λ s. ops.lt (ops.lit 98 0) s.memory_percent ≡ true) snaps
  Cause snaps no_activity = (task.config.endless ≡ true) × FiveIdle ops snaps

  exhaustion_cases :
      (s : ResourceSnapshot) (rest : List ResourceSnapshot) (r : Reason)
      → check_resource_exhaustion ops (s ∷ rest) ≡ some r
      → ((r ≡ memory_exhaustion s.memory_percent) × (ops.lt (ops.lit 95 0) s.memory_percent ≡ true))
        ⊎ ((r ≡ fd_exhaustion s.open_fds) × (ltb_ℤ (pos 10000) s.open_fds ≡ true))
        ⊎ ((r ≡ excessive_threads s.thread_count) × (ltb_ℤ (pos 1000) s.thread_count ≡ true))
  unfolding check_resource_exhaustion
  exhaustion_cases s rest r h = ground arith

  pub exhaustion_sound :
      (snaps : List ResourceSnapshot) (r : Reason)
      → check_resource_exhaustion ops snaps ≡ some r
      → Watched snaps
      → Cause snaps r
  unfolding check_resource_exhaustion
  exhaustion_sound [] r h w = ground arith
  exhaustion_sound (s ∷ rest) r h w = elim (exhaustion_cases s rest r h) [
    | inl (e, a) ↦ rw e (w, (refl, a))
    | inr (inl (e, a)) ↦ rw e (w, (refl, a))
    | inr (inr (e, a)) ↦ rw e (w, (refl, a))
  ]

  snapshot_cases :
      (snaps : List ResourceSnapshot) (r : Reason)
      → snapshot_reason ops snaps ≡ some r
      → (3 ≤ length snaps)
        × (((r ≡ process_frozen) × (is_process_frozen ops snaps ≡ true))
            ⊎ (check_resource_exhaustion ops snaps ≡ some r)
            ⊎ ((r ≡ io_starved) × (is_io_starved ops snaps ≡ true))
            ⊎ ((r ≡ network_hung) × (is_network_hung ops snaps ≡ true))
            ⊎ ((r ≡ memory_leak) × (has_memory_leak ops snaps ≡ true)))
  unfolding snapshot_reason
  snapshot_cases snaps r h = ground arith

  pub snapshots_sound :
      (snaps : List ResourceSnapshot) (r : Reason)
      → task.config.endless ≡ false
      → snapshot_reason ops snaps ≡ some r
      → Cause snaps r
  snapshots_sound snaps r e h =
      let c = snapshot_cases snaps r h in
      elim c.1 [
        | inl (q, a) ↦ rw q ((e, c.0), is_process_frozen-ShowsFreeze ops snaps a)
        | inr (inl a) ↦ exhaustion_sound snaps r a (e, c.0)
        | inr (inr (inl (q, a))) ↦ rw q ((e, c.0), is_io_starved-ShowsStarvation ops snaps a)
        | inr (inr (inr (inl (q, a)))) ↦ rw q ((e, c.0), is_network_hung-ShowsHang ops snaps a)
        | inr (inr (inr (inr (q, a)))) ↦ rw q ((e, c.0), has_memory_leak-ShowsLeak ops snaps a)
      ]

  heartbeat_cases :
      (r : Reason)
      → check_heartbeat_timeout m d task now ≡ some r
      → let used = effective_threshold (get_stuck_threshold d task.task_type) task in
        (m.has_stale_heartbeat task used now ≡ true)
        × (r ≡ heartbeat_reason task.last_heartbeat used now)
  unfolding check_heartbeat_timeout
  heartbeat_cases r h = ground arith

  pub heartbeat_sound :
      (snaps : List ResourceSnapshot) (r : Reason)
      → task.config.endless ≡ false
      → check_heartbeat_timeout m d task now ≡ some r
      → Cause snaps r
  heartbeat_sound snaps r e h =
      let c = heartbeat_cases r h in
      let used = effective_threshold (get_stuck_threshold d task.task_type) task in
      elim (Option-cases task.last_heartbeat) [
        | inl never ↦
            let q : r ≡ no_heartbeat_ever used =
              c.1 ∙ ap (λ b. heartbeat_reason b used now) never in
            rw q (e, never, (refl, c.0))
        | inr (beat, found) ↦
            let q : r ≡ no_heartbeat_for (since now beat) used =
              c.1 ∙ ap (λ b. heartbeat_reason b used now) found in
            rw q (e, (beat, found, refl), (refl, c.0))
      ]

  endless_cases :
      (s : ResourceSnapshot) (rest : List ResourceSnapshot) (r : Reason)
      → is_endless_task_stuck ops (s ∷ rest) ≡ some r
      → ((r ≡ zombie_state) × ((s.process_state ≡ "zombie") ⊎ (s.process_state ≡ "Z")))
        ⊎ ((r ≡ critical_memory) × (ops.lt (ops.lit 98 0) s.memory_percent ≡ true))
        ⊎ ((r ≡ no_activity)
            × (4 ≤ length rest)
            × (ops.lt (ops.lit 0 0) s.cpu_percent ≡ false)
            × (activity_from ops s 4 rest ≡ false))
  unfolding is_endless_task_stuck
  endless_cases s rest r h =
      ground (arith, eq_iff s.process_state "zombie", eq_iff s.process_state "Z")

  pub endless_sound :
      (snaps : List ResourceSnapshot) (r : Reason)
      → task.config.endless ≡ true
      → is_endless_task_stuck ops snaps ≡ some r
      → Cause snaps r
  unfolding is_endless_task_stuck
  endless_sound [] r e h = ground arith
  endless_sound (s ∷ rest) r e h = elim (endless_cases s rest r h) [
    | inl (q, a) ↦ rw q (e, a)
    | inr (inl (q, a)) ↦ rw q (e, a)
    | inr (inr (q, many, idle, still)) ↦
        rw q (e, (many, idle, activity_from-Still ops s 4 rest still))
  ]
