-- ===== src/Pool/Workers/Laws.antt =====
-- activeCount and the map of workers under every interleaving (worker_pool.go).
use background_tasks.Base.{
  ℕ, suc, ◌<◌, ◌+◌, ◌-◌, ◌≡◌, refl, Bool, List, [], ◌∷◌, String, arith, length, ◌⊎◌, inl, inr, ◌∙◌,
  All,
}
use background_tasks.Pool.Workers.{
  idle_check, leaving, Phase, entered, count_in, polling, uncounted, Member, PoolState, Turn,
  take_task, end_task, see_cancel, see_stop, idle_timeout, idle_return, decrement, signalled,
  Replace, here, there, Remove, first, later, Step, spawn, move, forget, stop_pool, Reach, start,
  next,
}

-- 1 for a worker that activeCount counts.
abbrev pub weight : Phase → ℕ
weight entered = 0
weight uncounted = 0
weight _ = 1

abbrev pub counted : List Member → ℕ
counted [] = 0
counted (w ∷ ws) = weight w.phase + counted ws

abbrev pub Exact : PoolState → Type 0
Exact s = s.active_count ≡ counted s.members

counted-Replace :
    {w w' : Member} {ws ws' : List Member}
    → Replace w w' ws ws'
    → counted ws' + weight w.phase ≡ counted ws + weight w'.phase
counted-Replace here = omega arith
counted-Replace (there r) = omega (arith, counted-Replace r)

counted-Remove : {ws ws' : List Member} → Remove ws ws' → counted ws' ≡ counted ws
counted-Remove first = omega arith
counted-Remove (later r) = omega (arith, counted-Remove r)

length-Replace :
    {w w' : Member} {ws ws' : List Member} → Replace w w' ws ws' → length ws' ≡ length ws
length-Replace here = refl
length-Replace (there r) = omega (arith, length-Replace r)

Turn-count :
    {s : PoolState} {w w' : Member} {n : ℕ}
    → Turn s w w' n
    → ((n ≡ s.active_count) × (weight w.phase ≡ weight w'.phase))
      ⊎ ((n ≡ s.active_count - 1) × (weight w.phase ≡ 1) × (weight w'.phase ≡ 0))
      ⊎ ((n ≡ suc s.active_count) × (weight w.phase ≡ 0) × (weight w'.phase ≡ 1))
Turn-count count_in = inr (inr (refl, refl, refl))
Turn-count take_task = inl (refl, refl)
Turn-count end_task = inl (refl, refl)
Turn-count (see_cancel _) = inl (refl, refl)
Turn-count see_stop = inl (refl, refl)
Turn-count (idle_timeout _) = inl (refl, refl)
Turn-count idle_return = inl (refl, refl)
Turn-count decrement = inr (inl (refl, refl, refl))
Turn-count signalled = inl (refl, refl)

Step-Exact : {s t : PoolState} → Step s t → Exact s → Exact t
Step-Exact (spawn id fresh) e = omega arith
Step-Exact (move turn r) e = omega (arith, Turn-count turn, counted-Replace r)
Step-Exact (forget r) e = omega (arith, counted-Remove r)
Step-Exact stop_pool e = e

-- After any interleaving, in which each new worker has an id that no entry of the map has,
-- activeCount is the number of workers in the map that have been counted and have not yet subtracted
-- themselves.
pub Reach-Exact : {min : ℕ} {s : PoolState} → Reach min s → s.active_count ≡ counted s.members
Reach-Exact start = refl
Reach-Exact (next r st) = Step-Exact st (Reach-Exact r)

abbrev pub AtRest : Phase → Type 0
AtRest entered = ⊥
AtRest uncounted = ⊥
AtRest _ = Unit

counted-AtRest : (ws : List Member) → All (λ w. AtRest w.phase) ws → counted ws ≡ length ws
counted-AtRest [] h = refl
counted-AtRest (w ∷ ws) (h, hs) = omega (arith, rest_weight w.phase h, counted-AtRest ws hs)
  where
    rest_weight : (p : Phase) → AtRest p → weight p ≡ 1
    rest_weight p h = ground arith

-- So GetWorkerCount is the size of the map whenever no worker stands between its entry and
-- its count, or between its subtraction and its removal.
pub active_count_settled :
    {min : ℕ} {s : PoolState}
    → Reach min s
    → All (λ w. AtRest w.phase) s.members
    → s.active_count ≡ length s.members
active_count_settled r h = Reach-Exact r ∙ counted-AtRest _ h

-- Workers leave by their idle timeouts alone: `IdleRun n s t` has `n` tests of canScaleDown that answer
-- true, and nothing but these and the departures of workers.
pub data IdleRun (s : PoolState) : ℕ → PoolState → Type 0 where
  nothing_yet : IdleRun s 0 s
  times_out :
      {n : ℕ} {t : PoolState} {id : String} {d : Bool} {ws : List Member}
      → IdleRun s n t
      → t.min_workers < t.active_count
      → Replace
          (record { id = id; phase = polling; stop_done = d })
          (record { id = id; phase = idle_check; stop_done = d })
          t.members
          ws
      → IdleRun s (suc n) (record t { members = ws })
  returns :
      {n : ℕ} {t : PoolState} {id : String} {d : Bool} {ws : List Member}
      → IdleRun s n t
      → Replace
          (record { id = id; phase = idle_check; stop_done = d })
          (record { id = id; phase = leaving; stop_done = d })
          t.members
          ws
      → IdleRun s n (record t { members = ws })
  subtracts :
      {n : ℕ} {t : PoolState} {id : String} {d : Bool} {ws : List Member}
      → IdleRun s n t
      → Replace
          (record { id = id; phase = leaving; stop_done = d })
          (record { id = id; phase = uncounted; stop_done = d })
          t.members
          ws
      → IdleRun s n (record t { members = ws; active_count = t.active_count - 1 })
  leaves_map :
      {n : ℕ} {t : PoolState} {ws : List Member}
      → IdleRun s n t
      → Remove t.members ws
      → IdleRun s n (record t { members = ws })

-- An idle run is made of steps of the pool.
pub IdleRun-Reach :
    {min : ℕ} {s : PoolState} {n : ℕ} {t : PoolState} → IdleRun s n t → Reach min s → Reach min t
IdleRun-Reach nothing_yet r = r
IdleRun-Reach (times_out run p at) r = next (IdleRun-Reach run r) (move (idle_timeout p) at)
IdleRun-Reach (returns run at) r = next (IdleRun-Reach run r) (move idle_return at)
IdleRun-Reach (subtracts run at) r = next (IdleRun-Reach run r) (move decrement at)
IdleRun-Reach (leaves_map run at) r = next (IdleRun-Reach run r) (forget at)

-- One worker more than the minimum, and the first two at their select.
abbrev pub before :
    (min : ℕ) (id1 id2 : String) (d1 d2 cancelled : Bool) (ws : List Member) → PoolState
before min id1 id2 d1 d2 cancelled ws = record {
  min_workers = min;
  members =
      record { id = id1; phase = polling; stop_done = d1 }
      ∷ record { id = id2; phase = polling; stop_done = d2 }
      ∷ ws;
  active_count = suc min;
  cancelled = cancelled;
}
