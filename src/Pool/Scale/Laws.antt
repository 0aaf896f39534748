-- ===== src/Pool/Scale/Laws.antt =====
-- What Scale and checkAndScale do to the number of workers, and what the share of a worker is worth
-- to the queue (worker_pool.go).
use background_tasks.Base.{
  ℕ, zero, suc, ◌+◌, ◌-◌, ◌/◌, ◌≡◌, ◌≢◌, ◌≤◌, ◌<◌, min as min_ℕ, refl, Bool-cases, inl, inr, ◌<ℤ◌,
  ◌⊎◌, ℤ, pos, ◌+ℤ◌, ◌-ℤ◌, ◌≤ℤ◌, pos_part, neg_part, ltb_ℤ, eqb_ℤ, quot_ℤ, Bool, true, false, not,
  ◌&&◌, Option, none, some, List, [], ◌∷◌, Time, arith, if◌then◌else◌,
}
use native.Mathlib.Nat.{div-eq_of_lt}
use background_tasks.Task.{BackgroundTask, Float64, ResourceRequirements, is_pending}
use background_tasks.Float.{FloatOps}
use background_tasks.Memory.{is_eligible}
use background_tasks.Pool.Scale.{
  WorkerPoolConfig, SystemResources, WorkerView, min, clamp_target, stop_idle, scale,
  check_and_scale, queue_pressure, wants_more, workers_to_add, calculate_worker_requirements,
}

min_lem : (a b c : ℤ) → (min a b c ≤ℤ a) × (min a b c ≤ℤ b) × (min a b c ≤ℤ c)
unfolding min
min_lem a b c = ground arith

min_least : (a b c d : ℤ) → d ≤ℤ a → d ≤ℤ b → d ≤ℤ c → d ≤ℤ min a b c
unfolding min
min_least a b c d p q r = ground arith

clamp_target_bounds :
    (cfg : WorkerPoolConfig) (target : ℤ)
    → cfg.min_workers ≤ℤ cfg.max_workers
    → (cfg.min_workers ≤ℤ clamp_target cfg target) × (clamp_target cfg target ≤ℤ cfg.max_workers)
unfolding clamp_target
clamp_target_bounds cfg target h = ground arith

clamp_target_inside :
    (cfg : WorkerPoolConfig) (target : ℤ)
    → cfg.min_workers ≤ℤ target
    → target ≤ℤ cfg.max_workers
    → clamp_target cfg target ≡ target
unfolding clamp_target
clamp_target_inside cfg target h k = ground arith

-- Counts over the workers.
pub count : (WorkerView → Bool) → List WorkerView → ℕ
count p [] = 0
count p (w ∷ ws) = let rest = count p ws in if p w then suc rest else rest

abbrev pub is_signalled : WorkerView → Bool
is_signalled w = w.signalled

abbrev pub is_busy_signalled : WorkerView → Bool
is_busy_signalled w = not w.idle && w.signalled

abbrev pub can_be_stopped : WorkerView → Bool
can_be_stopped w = w.idle && not w.signalled

stop_idle_counts :
    (wanted stopped : ℕ) (ws : List WorkerView)
    → (count is_signalled (stop_idle wanted stopped ws)
        ≡ count is_signalled ws + min_ℕ (wanted - stopped) (count can_be_stopped ws))
      × (count is_busy_signalled (stop_idle wanted stopped ws) ≡ count is_busy_signalled ws)
unfolding stop_idle count
stop_idle_counts wanted stopped [] = (omega arith, refl)
stop_idle_counts wanted stopped (w ∷ ws) = (
  ground (arith, stop_idle_counts wanted stopped ws, stop_idle_counts wanted (suc stopped) ws),
  ground (arith, stop_idle_counts wanted stopped ws, stop_idle_counts wanted (suc stopped) ws),
)

-- `t` is the target, raised to MinWorkers if it is below, and then cut to MaxWorkers if it is above.
abbrev pub IsCut : WorkerPoolConfig → ℤ → ℤ → Type 0
IsCut cfg target t =
    (t ≤ℤ cfg.max_workers)
    × ((cfg.min_workers ≤ℤ t) ⊎ (t ≡ cfg.max_workers))
    × ((t ≡ target)
        ⊎ (target <ℤ cfg.min_workers) × (t ≡ cfg.min_workers)
        ⊎ ((cfg.max_workers <ℤ target) ⊎ (cfg.max_workers <ℤ cfg.min_workers))
          × (t ≡ cfg.max_workers))

clamp_target-IsCut :
    (cfg : WorkerPoolConfig) (target : ℤ) → IsCut cfg target (clamp_target cfg target)
unfolding clamp_target
clamp_target-IsCut cfg target = elim (Bool-cases (ltb_ℤ target cfg.min_workers)) [
  | inl low ↦ elim (Bool-cases (ltb_ℤ cfg.max_workers cfg.min_workers)) [
    | inl out ↦
        rw (low, out) (at_most cfg.max_workers, inr refl, inr (inr (inr (ground arith), refl)))
    | inr fits ↦
        rw (low, fits) (ground arith, inl (at_most cfg.min_workers), inr (inl (ground arith, refl)))
  ]
  | inr high ↦ elim (Bool-cases (ltb_ℤ cfg.max_workers target)) [
    | inl out ↦
        rw (high, out) (at_most cfg.max_workers, inr refl, inr (inr (inl (ground arith), refl)))
    | inr fits ↦ rw (high, fits) (ground arith, inl (ground arith), inl refl)
  ]
]
  where
    at_most : (a : ℤ) → a ≤ℤ a
    at_most a = omega arith

scaled :
    (cfg : WorkerPoolConfig) (target current : ℤ) (ws : List WorkerView)
    → let t = clamp_target cfg target in
      let (spawned, ws') = scale cfg target current ws in
      ((ltb_ℤ current t ≡ true) × (current +ℤ pos spawned ≡ t) × (ws' ≡ ws)
        ⊎ (t ≤ℤ current)
          × (spawned ≡ 0)
          × (count is_signalled ws'
              ≡ count is_signalled ws + min_ℕ (pos_part (current -ℤ t)) (count can_be_stopped ws)))
      × (count is_busy_signalled ws' ≡ count is_busy_signalled ws)
unfolding scale
scaled cfg target current ws = ground (
  arith,
  stop_idle_counts (pos_part (current -ℤ clamp_target cfg target)) 0 ws,
  stop_idle_counts (neg_part (clamp_target cfg target -ℤ current)) 0 ws,
)

-- There is a goal `t`: the target, unless it is outside the bounds of the configuration, and never
-- above MaxWorkers, nor below MinWorkers unless that is above MaxWorkers. If Scale raises the count it
-- spawns exactly up to `t`; otherwise it spawns none and signals as many workers as the count is above
-- `t`, or all that are idle and not yet signalled if those are fewer. It signals no busy worker.
pub scale_lem :
    (cfg : WorkerPoolConfig) (target current : ℤ) (ws : List WorkerView)
    → let (spawned, ws') = scale cfg target current ws in
      (t : ℤ) × IsCut cfg target t
      × ((ltb_ℤ current t ≡ true) × (current +ℤ pos spawned ≡ t) × (ws' ≡ ws)
          ⊎ (t ≤ℤ current)
            × (spawned ≡ 0)
            × (count is_signalled ws'
                ≡ count is_signalled ws
                  + min_ℕ (pos_part (current -ℤ t)) (count can_be_stopped ws)))
      × (count is_busy_signalled ws' ≡ count is_busy_signalled ws)
scale_lem cfg target current ws =
    let (moved, quiet) = scaled cfg target current ws in
    (clamp_target cfg target, clamp_target-IsCut cfg target, moved, quiet)

added_fits : (w m c : ℤ) (n : ℕ) → w ≤ℤ m -ℤ c → pos_part w ≡ suc n → c +ℤ pos (suc n) ≤ℤ m
added_fits w m c n h e = ground arith

added_few : (w : ℤ) (n : ℕ) → w ≤ℤ pos 3 → pos_part w ≡ suc n → suc n ≤ 3
added_few w n h e = ground arith

-- checkAndScale under pressure: if it spawns workers, no other scaling is in progress, the
-- resources are known, and the count stays within MaxWorkers; it spawns at most three.
pub check_and_scale_bounded :
    (ops : FloatOps) (cfg : WorkerPoolConfig) (scaling : Bool) (res : Option SystemResources)
    (pending current : ℤ) (n : ℕ)
    → (check_and_scale ops cfg scaling res pending current).spawned ≡ suc n
    → (scaling ≡ false) × (res ≢ none) × (current +ℤ pos (suc n) ≤ℤ cfg.max_workers) × (suc n ≤ 3)
unfolding check_and_scale
check_and_scale_bounded ops cfg true res pending current n h = absurd (omega arith)
check_and_scale_bounded ops cfg false none pending current n h = absurd (omega arith)
check_and_scale_bounded ops cfg false (some r) pending current n h =
    let w : ℤ = workers_to_add ops cfg pending current in
    let (fits, _, few) =
      min_lem (cfg.max_workers -ℤ current) (ops.to_int (queue_pressure ops pending current))
        (pos 3) in
    let e : pos_part w ≡ suc n = ground arith in
    (refl, cc, added_fits w cfg.max_workers current n fits e, added_few w n few e)

-- Where all its conditions hold, checkAndScale spawns at least one worker, given that a float64
-- above 2.0 is cut to 2 at least.
pub check_and_scale_progress :
    (ops : FloatOps) (cfg : WorkerPoolConfig) (r : SystemResources) (pending current : ℤ)
    → ((x : Float64) → ops.lt (ops.lit 20 1) x ≡ true → pos 2 ≤ℤ ops.to_int x)
    → wants_more ops cfg r pending current ≡ true
    → (1 ≤ (check_and_scale ops cfg false (some r) pending current).spawned)
      × (current +ℤ pos (check_and_scale ops cfg false (some r) pending current).spawned
          ≤ℤ cfg.max_workers)
unfolding check_and_scale
check_and_scale_progress ops cfg r pending current cut h =
    let x = queue_pressure ops pending current in
    let a : ℤ = cfg.max_workers -ℤ current in
    let two = cut x (ground arith) in
    let room : pos 1 ≤ℤ a = ground arith in
    let one : pos 1 ≤ℤ min a (ops.to_int x) (pos 3) =
      min_least a (ops.to_int x) (pos 3) (pos 1) room (omega arith) (omega arith) in
    let fits = (min_lem a (ops.to_int x) (pos 3)).0 in
    rw h (omega arith, spawned_fits (min a (ops.to_int x) (pos 3)) cfg.max_workers current fits one)
  where
    spawned_fits : (w m c : ℤ) → w ≤ℤ m -ℤ c → pos 1 ≤ℤ w → c +ℤ pos (pos_part w) ≤ℤ m
    spawned_fits w m c p q = ground arith

share-zero :
    (free w : ℕ) (x : ℤ)
    → x ≡ pos free
    → free < suc w
    → quot_ℤ x (if eqb_ℤ (pos (suc w)) (pos 0) then pos 1 else pos (suc w)) ≡ pos 0
share-zero free w x e p = let c : free / suc w ≡ 0 = div-eq_of_lt p in rw e (ground arith)

unlimited_eligible :
    (t : BackgroundTask) (req : ResourceRequirements) (now : Time)
    → req.cpu_cores ≡ pos 0
    → req.memory_mb ≡ pos 0
    → is_pending t.status ≡ true
    → t.scheduled_at < now
    → is_eligible t req now ≡ true
unfolding is_eligible
unlimited_eligible t req now c m p d = ground arith

-- With fewer free cores than workers and less free memory in MB than workers, the share of each
-- is 0, which the queue reads as "no limit": every task that is pending and due is then eligible,
-- whatever it requires.
pub requirements_vanish :
    (ops : FloatOps) (r : SystemResources) (cores memory workers : ℕ) (t : BackgroundTask)
    (now : Time)
    → ops.to_int r.available_cpu_cores ≡ pos cores
    → r.available_memory_mb ≡ pos memory
    → cores < workers
    → memory < workers
    → is_pending t.status ≡ true
    → t.scheduled_at < now
    → is_eligible t (calculate_worker_requirements ops (some r) (pos workers)) now ≡ true
unfolding calculate_worker_requirements
requirements_vanish ops r cores memory zero t now e f p q pend due = absurd (omega arith)
requirements_vanish ops r cores memory (suc w) t now e f p q pend due =
    unlimited_eligible t (calculate_worker_requirements ops (some r) (pos (suc w))) now
      (share-zero cores w _ e p) (share-zero memory w _ f q) pend due
