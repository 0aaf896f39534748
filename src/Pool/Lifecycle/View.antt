-- ===== src/Pool/Lifecycle/View.antt =====
-- The pool seen through its map of workers is the one of Pool/Workers (worker_pool.go).
use background_tasks.Base.{
  ℕ, ◌≡◌, refl, Bool, true, false, List, [], ◌∷◌, String, arith, ◌⊎◌, inl, inr, ap, subst,
  Bool-cases, if◌then◌else◌,
}
use background_tasks.Pool.Workers
use background_tasks.Pool.Workers.{Phase, Member, PoolState, Reach, Fresh}
use background_tasks.Pool.Lifecycle.{
  Stage, entered, count_in, worker_launched, idle_check, executing, leaving, uncounted, removed,
  WorkerThread, AdaptiveWorkerPool, new_adaptive_worker_pool, Unused, signal_stop, start_pool,
  StageTurn, see_cancel, see_stop, idle_timer, poll, prompt_cancel, prompt_stop, still_wanted,
  can_leave, must_stay, idle_return, get_task, no_task, slept, sleep_cancelled, sleep_stopped,
  task_done, decrement, leave_map, Internal, worker_turn, worker_done, loop_turn, loop_spawns,
  loop_done, External, scale_spawns, signals_worker, start_called, start_spawns, start_spawned,
  start_launches, start_returns, stop_called, stop_signalled, stop_graceful, stop_times_out, Later,
  now, inside, outside,
}
use background_tasks.Base.Places.{Replace, here, there, Remove, first, later}

-- The entry of the map that a worker has.
abbrev pub phase_of : Stage → Phase
phase_of entered = Phase.entered
phase_of executing = Phase.working
phase_of idle_check = Phase.idle_check
phase_of leaving = Phase.leaving
phase_of uncounted = Phase.uncounted
phase_of _ = Phase.polling

abbrev pub is_removed : Stage → Bool
is_removed removed = true
is_removed _ = false

abbrev pub member_of : WorkerThread → Member
member_of w = record { id = w.id; phase = phase_of w.stage; stop_done = w.stop_done }

abbrev pub members_of : List WorkerThread → List Member
members_of [] = []
members_of (w ∷ ws) =
    let rest = members_of ws in if is_removed w.stage then rest else member_of w ∷ rest

abbrev pub view : AdaptiveWorkerPool → PoolState
view s = record {
  min_workers = s.min_workers;
  members = members_of s.workers;
  active_count = s.active_count;
  cancelled = s.cancelled;
}

members_of-same :
    {w w' : WorkerThread} {ws ws' : List WorkerThread}
    → member_of w ≡ member_of w'
    → is_removed w.stage ≡ false
    → is_removed w'.stage ≡ false
    → Replace w w' ws ws'
    → members_of ws ≡ members_of ws'
members_of-same e p q here = cc
members_of-same e p q (there {y} r) = ground (arith, members_of-same e p q r)

members_of-Replace :
    {w w' : WorkerThread} {ws ws' : List WorkerThread}
    → is_removed w.stage ≡ false
    → is_removed w'.stage ≡ false
    → Replace w w' ws ws'
    → Workers.Replace (member_of w) (member_of w') (members_of ws) (members_of ws')
members_of-Replace p q here = rw (p, q) Workers.here
members_of-Replace p q (there {y} r) = elim (Bool-cases (is_removed y.stage)) [
  | inl gone ↦ rw gone (members_of-Replace p q r)
  | inr here_still ↦ rw here_still (Workers.there (members_of-Replace p q r))
]

members_of-leave :
    {id : String} {d : Bool} {ws ws' : List WorkerThread}
    → Replace
        (record { id = id; stage = uncounted; stop_done = d })
        (record { id = id; stage = removed; stop_done = d })
        ws
        ws'
    → Workers.Remove (members_of ws) (members_of ws')
members_of-leave here = Workers.first
members_of-leave (there {y} r) = elim (Bool-cases (is_removed y.stage)) [
  | inl gone ↦ rw gone (members_of-leave r)
  | inr here_still ↦ rw here_still (Workers.later (members_of-leave r))
]

members_of-removed :
    {w : WorkerThread} {ws ws' : List WorkerThread}
    → is_removed w.stage ≡ true
    → Replace w (signal_stop w) ws ws'
    → members_of ws ≡ members_of ws'
members_of-removed gone here = rw gone
members_of-removed gone (there {y} r) = ground (arith, members_of-removed gone r)

members_of-Remove :
    {id : String} {d : Bool} {ws ws' : List WorkerThread}
    → Remove (record { id = id; stage = removed; stop_done = d }) ws ws'
    → members_of ws ≡ members_of ws'
members_of-Remove first = refl
members_of-Remove (later {y} r) = ground (arith, members_of-Remove r)

Unused-Fresh : (id : String) (ws : List WorkerThread) → Unused id ws → Fresh id (members_of ws)
Unused-Fresh id [] u = tt
Unused-Fresh id (w ∷ ws) (u, us) = elim (Bool-cases (is_removed w.stage)) [
  | inl gone ↦ rw gone (Unused-Fresh id ws us)
  | inr here_still ↦ rw here_still (u, Unused-Fresh id ws us)
]

stopped_leaves :
    (s : PoolState) (id : String) (d : Bool)
    → d ≡ true
    → Workers.Turn s
        (record { id = id; phase = Phase.polling; stop_done = d })
        (record { id = id; phase = Phase.leaving; stop_done = d })
        s.active_count
stopped_leaves s id d h = rw h Workers.see_stop

-- One step of the pool is one of Pool/Workers, or does not show there.
abbrev pub Follows : AdaptiveWorkerPool → AdaptiveWorkerPool → Type 0
Follows s t = (view s ≡ view t) ⊎ Workers.Step (view s) (view t)

unseen :
    (s : AdaptiveWorkerPool) (ws : List WorkerThread)
    → members_of s.workers ≡ members_of ws
    → view s ≡ view (record s { workers = ws })
unseen s ws e = ap (λ ms. record (view s) { members = ms }) e

Turn-Follows :
    (s : AdaptiveWorkerPool) {id : String} {d : Bool} {a b : Stage} {n : ℕ} {ws : List WorkerThread}
    → StageTurn s.min_workers s.active_count s.cancelled d a b n
    → Replace
        (record { id = id; stage = a; stop_done = d })
        (record { id = id; stage = b; stop_done = d })
        s.workers
        ws
    → Follows s (record s { workers = ws; active_count = n })
Turn-Follows s count_in r = inr (Workers.move Workers.count_in (members_of-Replace refl refl r))
Turn-Follows s (see_cancel h) r =
    inr (Workers.move (Workers.see_cancel h) (members_of-Replace refl refl r))
Turn-Follows s (prompt_cancel h) r =
    inr (Workers.move (Workers.see_cancel h) (members_of-Replace refl refl r))
Turn-Follows s (sleep_cancelled h) r =
    inr (Workers.move (Workers.see_cancel h) (members_of-Replace refl refl r))
Turn-Follows s {id} {d} (see_stop h) r =
    inr (Workers.move (stopped_leaves (view s) id d h) (members_of-Replace refl refl r))
Turn-Follows s {id} {d} (prompt_stop h) r =
    inr (Workers.move (stopped_leaves (view s) id d h) (members_of-Replace refl refl r))
Turn-Follows s {id} {d} (sleep_stopped h) r =
    inr (Workers.move (stopped_leaves (view s) id d h) (members_of-Replace refl refl r))
Turn-Follows s (can_leave h) r =
    inr (Workers.move (Workers.idle_timeout h) (members_of-Replace refl refl r))
Turn-Follows s idle_return r =
    inr (Workers.move Workers.idle_return (members_of-Replace refl refl r))
Turn-Follows s get_task r = inr (Workers.move Workers.take_task (members_of-Replace refl refl r))
Turn-Follows s task_done r = inr (Workers.move Workers.end_task (members_of-Replace refl refl r))
Turn-Follows s decrement r = inr (Workers.move Workers.decrement (members_of-Replace refl refl r))
Turn-Follows s leave_map r = inr (Workers.forget (members_of-leave r))
Turn-Follows s {ws = ws} idle_timer r = inl (unseen s ws (members_of-same refl refl refl r))
Turn-Follows s {ws = ws} (poll _ _) r = inl (unseen s ws (members_of-same refl refl refl r))
Turn-Follows s {ws = ws} (still_wanted _ _) r = inl (unseen s ws (members_of-same refl refl refl r))
Turn-Follows s {ws = ws} (must_stay _) r = inl (unseen s ws (members_of-same refl refl refl r))
Turn-Follows s {ws = ws} no_task r = inl (unseen s ws (members_of-same refl refl refl r))
Turn-Follows s {ws = ws} slept r = inl (unseen s ws (members_of-same refl refl refl r))

Internal-Follows : {s t : AdaptiveWorkerPool} → Internal s t → Follows s t
Internal-Follows {s} (worker_turn turn r) = Turn-Follows s turn r
Internal-Follows {s} (worker_launched {ws = ws} r) =
    inl (unseen s ws (members_of-same refl refl refl r))
Internal-Follows {s} (worker_done {ws = ws} r) = inl (unseen s ws (members_of-Remove r))
Internal-Follows (loop_turn turn r) = inl refl
Internal-Follows {s} (loop_spawns id u r) = inr (Workers.spawn id (Unused-Fresh id s.workers u))
Internal-Follows (loop_done r) = inl refl

signal-Follows :
    (s : AdaptiveWorkerPool) {w : WorkerThread} {ws : List WorkerThread}
    → Replace w (signal_stop w) s.workers ws
    → Follows s (record s { workers = ws })
signal-Follows s {w} {ws} r = elim (Bool-cases (is_removed w.stage)) [
  | inl gone ↦ inl (unseen s ws (members_of-removed gone r))
  | inr here_still ↦
      inr (Workers.move Workers.signalled (members_of-Replace here_still here_still r))
]

start-view : (s : AdaptiveWorkerPool) → view s ≡ view (start_pool s).0
unfolding start_pool
start-view s = ground arith

External-Follows : {s t : AdaptiveWorkerPool} → External s t → Follows s t
External-Follows {s} start_called = inl (start-view s)
External-Follows {s} (scale_spawns id u) = inr (Workers.spawn id (Unused-Fresh id s.workers u))
External-Follows {s} (signals_worker r) = signal-Follows s r
External-Follows {s} (start_spawns id u r) = inr (Workers.spawn id (Unused-Fresh id s.workers u))
External-Follows (start_spawned z r) = inl refl
External-Follows (start_launches r) = inl refl
External-Follows (start_returns r) = inl refl
External-Follows stop_called = inr Workers.stop_pool
External-Follows (stop_signalled h r) = inl refl
External-Follows (stop_graceful z r) = inl refl
External-Follows (stop_times_out r) = inl refl

follow :
    {min : ℕ} (s t : AdaptiveWorkerPool) → Follows s t → Reach min (view s) → Reach min (view t)
follow {min} s t (inl same) r = subst (Reach min) same r
follow s t (inr st) r = Workers.next r st

-- Whatever the callers of the pool and its goroutines do, the map of workers with activeCount goes
-- through states of Pool/Workers only, so what holds there holds here; the ids of new
-- workers are taken to be new.
pub Later-Reach :
    {min : ℕ} {s : AdaptiveWorkerPool} → Later (new_adaptive_worker_pool min) s → Reach min (view s)
Later-Reach now = Workers.start
Later-Reach (inside {t} {u} l st) = follow t u (Internal-Follows st) (Later-Reach l)
Later-Reach (outside {t} {u} l st) = follow t u (External-Follows st) (Later-Reach l)
