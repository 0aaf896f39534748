-- ===== src/Pool/Workers.antt =====
-- The life of the workers among each other (worker_pool.go): spawnWorker, workerLoop with its
-- deferred calls, signalStop, canScaleDown and Stop, as interleaved steps over the shared
-- activeCount and the map of workers.
pub mod Laws
use background_tasks.Base.{
  ℕ, suc, ◌+◌, ◌-◌, ◌≡◌, ◌≢◌, ◌<◌, ◌≤◌, Bool, true, false, List, [], ◌∷◌, String, if◌then◌else◌,
  str_eq, All,
}

-- Where a worker stands. `entered`: it has its entry in the map and is not counted yet. `polling`: at the select, and in the branches that come
-- back to it. `working`: in executeTask. `idle_check`: canScaleDown has answered true.
-- `leaving`: at a return of the loop. `uncounted`: activeCount is decremented, and the entry of
-- the map is still there.
pub data Phase : Type 0 where
  entered polling working idle_check leaving uncounted : Phase

pub record Member : Type 0 where
  pub id : String
  pub phase : Phase
  pub stop_done : Bool  -- stopChan is closed

-- The map of workers, activeCount and whether the pool's context is cancelled. A worker that has
-- left the map has no entry; its last act sets its state to stopped.
pub record PoolState : Type 0 where
  pub min_workers : ℕ
  pub members : List Member
  pub active_count : ℕ
  pub cancelled : Bool

-- No entry has this id. The source keeps eight characters of a uuid, and takes them to be new.
abbrev pub Fresh : String → List Member → Type 0
Fresh id = All λ w. str_eq w.id id ≡ false

-- One worker moves on by itself: `Turn s w w' n`, with `n` the activeCount behind the move.
pub data Turn (s : PoolState) : Member → Member → ℕ → Type 0 where
  count_in :
      {id : String} {d : Bool}
      → Turn s
          (record { id = id; phase = entered; stop_done = d })
          (record { id = id; phase = polling; stop_done = d })
          (suc s.active_count)
  take_task :
      {id : String} {d : Bool}
      → Turn s
          (record { id = id; phase = polling; stop_done = d })
          (record { id = id; phase = working; stop_done = d })
          s.active_count
  end_task :
      {id : String} {d : Bool}
      → Turn s
          (record { id = id; phase = working; stop_done = d })
          (record { id = id; phase = polling; stop_done = d })
          s.active_count
  see_cancel :
      {id : String} {d : Bool}
      → s.cancelled ≡ true
      → Turn s
          (record { id = id; phase = polling; stop_done = d })
          (record { id = id; phase = leaving; stop_done = d })
          s.active_count
  see_stop :
      {id : String}
      → Turn s
          (record { id = id; phase = polling; stop_done = true })
          (record { id = id; phase = leaving; stop_done = true })
          s.active_count
  idle_timeout :
      {id : String} {d : Bool}
      → s.min_workers < s.active_count
      → Turn s
          (record { id = id; phase = polling; stop_done = d })
          (record { id = id; phase = idle_check; stop_done = d })
          s.active_count
  idle_return :
      {id : String} {d : Bool}
      → Turn s
          (record { id = id; phase = idle_check; stop_done = d })
          (record { id = id; phase = leaving; stop_done = d })
          s.active_count
  decrement :
      {id : String} {d : Bool}
      → Turn s
          (record { id = id; phase = leaving; stop_done = d })
          (record { id = id; phase = uncounted; stop_done = d })
          (s.active_count - 1)
  signalled :
      {id : String} {p : Phase} {d : Bool}
      → Turn s
          (record { id = id; phase = p; stop_done = d })
          (record { id = id; phase = p; stop_done = true })
          s.active_count

-- `w` is replaced by `w'` somewhere in the map.
pub data Replace (w w' : Member) : List Member → List Member → Type 0 where
  here : {ws : List Member} → Replace w w' (w ∷ ws) (w' ∷ ws)
  there :
      {v : Member} {ws ws' : List Member} → Replace w w' ws ws' → Replace w w' (v ∷ ws) (v ∷ ws')

-- An entry whose worker is uncounted leaves the map.
pub data Remove : List Member → List Member → Type 0 where
  first :
      {id : String} {d : Bool} {ws : List Member}
      → Remove (record { id = id; phase = uncounted; stop_done = d } ∷ ws) ws
  later : {v : Member} {ws ws' : List Member} → Remove ws ws' → Remove (v ∷ ws) (v ∷ ws')

-- `spawn` puts the entry into the map; `count_in` is the addition to activeCount, which comes without
-- the lock. Others may act in between.
pub data Step (s : PoolState) : PoolState → Type 0 where
  spawn :
      (id : String)
      → Fresh id s.members
      → Step s (record s {
        members = record { id = id; phase = entered; stop_done = false } ∷ s.members;
      })
  move :
      {w w' : Member} {ws : List Member} {n : ℕ}
      → Turn s w w' n
      → Replace w w' s.members ws
      → Step s (record s { members = ws; active_count = n })
  forget : {ws : List Member} → Remove s.members ws → Step s (record s { members = ws })
  stop_pool : Step s (record s { cancelled = true })

abbrev pub new_pool : ℕ → PoolState
new_pool min = record { min_workers = min; members = []; active_count = 0; cancelled = false }

pub data Reach (min : ℕ) : PoolState → Type 0 where
  start : Reach min (new_pool min)
  next : {s t : PoolState} → Reach min s → Step s t → Reach min t
