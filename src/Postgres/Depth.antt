-- ===== src/Postgres/Depth.antt =====
-- GetQueueDepth of PostgresTaskQueue (task_queue.go) in the steps that its two uses of the lock make:
-- it tests the cache under the lock, reads the repository without it, and fills the cache under the
-- lock again. Other calls and other goroutines that ask come in between.
use background_tasks.Base.{
  ℕ, suc, ◌*◌, ◌≡◌, ◌<ℤ◌, refl, sym, subst, ◌⊎◌, inl, inr, pos, List, [], ◌∷◌, second, since, Time,
  All,
}
use background_tasks.Memory.{DepthMap}
use background_tasks.Postgres.{
  ok, TaskRepository, PostgresTaskQueue, new_postgres_task_queue, invalidate_cache, get_queue_depth,
}
use background_tasks.Postgres.Cache.{counted_in, CountedIn, answer_cases, no_depth, in_time}
use background_tasks.Base.Places.{Remove}

-- The queue, with the counts of the goroutines that have read the repository and not yet filled the
-- cache, and the number of the calls that have written to the repository and not yet dropped the
-- cache.
pub record Asking (R : Type 0) : Type 0 where
  pub queue : PostgresTaskQueue R
  pub in_hand : List DepthMap
  pub to_drop : ℕ

module _ {R : Type 0} where
  abbrev pub fill : DepthMap → Time → PostgresTaskQueue R → PostgresTaskQueue R
  fill depth later q = record q { cached_depth = depth; depth_cache_time = later }

  -- A call that writes goes on to drop the cache, as a step of its own. The others who write to the
  -- repository, the workers of the pool and other processes, do not drop it, nor does a call whose
  -- write fails.
  pub data DepthStep (repo : TaskRepository R) (s : Asking R) : Asking R → Type 0 where
    call_writes :
        (store : R)
        → DepthStep repo s
            (record s { queue = record s.queue { store = store }; to_drop = suc s.to_drop })
    call_drops :
        {n : ℕ}
        → s.to_drop ≡ suc n
        → DepthStep repo s (record s { queue = invalidate_cache s.queue; to_drop = n })
    others_write :
        (store : R) → DepthStep repo s (record s { queue = record s.queue { store = store } })
    reads :
        (depth : DepthMap)
        → counted_in repo s.queue.store ≡ ok depth
        → DepthStep repo s (record s { in_hand = depth ∷ s.in_hand })
    fills :
        (later : Time) {depth : DepthMap} {others : List DepthMap}
        → Remove depth s.in_hand others
        → DepthStep repo s (record s { queue = fill depth later s.queue; in_hand = others })

  -- The list holds the states of the repository so far, the last one first.
  pub data Steps (repo : TaskRepository R) : List R → Asking R → Type 0 where
    begin :
        (store : R)
        → Steps repo
            (store ∷ [])
            (record { queue = new_postgres_task_queue store; in_hand = []; to_drop = 0 })
    next :
        {past : List R} {s t : Asking R}
        → Steps repo past s
        → DepthStep repo s t
        → Steps repo (t.queue.store ∷ past) t

module _ {R : Type 0} (repo : TaskRepository R) where
  -- Each depth in hand was counted, and so was the cache unless it is empty.
  record Counted (past : List R) (s : Asking R) : Type 0 where
    pub ttl : s.queue.depth_cache_ttl ≡ pos (5 * second)
    pub older : List R
    pub newest : past ≡ s.queue.store ∷ older
    pub cache : (s.queue.cached_depth ≡ []) ⊎ CountedIn repo past s.queue.cached_depth
    pub hands : All (CountedIn repo past) s.in_hand

  All-first :
      (P : DepthMap → Type 0) {d : DepthMap} {ds others : List DepthMap}
      → Remove d ds others
      → All P ds
      → P d × All P others
  All-first P Remove.first (p, ps) = (p, ps)
  All-first P (Remove.later r) (p, ps) = let (q, qs) = All-first P r ps in (q, (p, qs))

  -- Counted in an earlier state.
  older_hands :
      (past : List R) (store : R) (ds : List DepthMap)
      → All (CountedIn repo past) ds
      → All (CountedIn repo (store ∷ past)) ds
  older_hands past store [] h = tt
  older_hands past store (d ∷ ds) (p, ps) = (inr p, older_hands past store ds ps)

  older_cache :
      (past : List R) (store : R) (d : DepthMap)
      → (d ≡ []) ⊎ CountedIn repo past d
      → (d ≡ []) ⊎ CountedIn repo (store ∷ past) d
  older_cache past store d (inl e) = inl e
  older_cache past store d (inr p) = inr (inr p)

  Steps-Counted : {past : List R} {s : Asking R} → Steps repo past s → Counted past s
  Steps-Counted (begin store) = record {
    ttl = refl;
    older = [];
    newest = refl;
    cache = inl refl;
    hands = tt;
  }
  Steps-Counted (next {past} {s} st (call_writes store)) =
      let i = Steps-Counted st in
      record {
        ttl = i.ttl;
        older = past;
        newest = refl;
        cache = older_cache past store s.queue.cached_depth i.cache;
        hands = older_hands past store s.in_hand i.hands;
      }
  Steps-Counted (next {past} {s} st (others_write store)) =
      let i = Steps-Counted st in
      record {
        ttl = i.ttl;
        older = past;
        newest = refl;
        cache = older_cache past store s.queue.cached_depth i.cache;
        hands = older_hands past store s.in_hand i.hands;
      }
  Steps-Counted (next {past} {s} st (call_drops e)) =
      let i = Steps-Counted st in
      record {
        ttl = i.ttl;
        older = past;
        newest = refl;
        cache = older_cache past s.queue.store s.queue.cached_depth i.cache;
        hands = older_hands past s.queue.store s.in_hand i.hands;
      }
  Steps-Counted (next {past} {s} st (reads depth counted)) =
      let i = Steps-Counted st in
      record {
        ttl = i.ttl;
        older = past;
        newest = refl;
        cache = older_cache past s.queue.store s.queue.cached_depth i.cache;
        hands = (inl counted, older_hands past s.queue.store s.in_hand i.hands);
      }
  Steps-Counted (next {past} {s} st (fills later r)) =
      let i = Steps-Counted st in
      let (p, ps) = All-first (CountedIn repo past) r i.hands in
      record {
        ttl = i.ttl;
        older = past;
        newest = refl;
        cache = inr (inr p);
        hands = older_hands past s.queue.store _ ps;
      }

  -- Whatever happens in between, to the repository and to the cache, while other goroutines ask:
  -- a depth that is answered was counted in a state that the repository had; if it is not the count
  -- of the present state, the cache was filled less than five seconds before.
  pub depth_was_counted_between :
      {past : List R} {s : Asking R} (now later : Time) (depth : DepthMap)
      → Steps repo past s
      → (get_queue_depth repo s.queue now later).1 ≡ ok depth
      → CountedIn repo past depth
        × ((counted_in repo s.queue.store ≡ ok depth)
            ⊎ (since now s.queue.depth_cache_time <ℤ pos (5 * second)))
  depth_was_counted_between {past} {s} now later depth st e =
      let i = Steps-Counted st in
      elim (answer_cases repo s.queue now later depth e) [
        | inl present ↦ (
          subst (λ states. CountedIn repo states depth) (sym i.newest) (inl present),
          inl present,
        )
        | inr (same, young, some_depth) ↦ (
          elim i.cache [
            | inl empty ↦ absurd (no_depth repo s.queue.cached_depth empty some_depth)
            | inr was ↦ subst (CountedIn repo past) (sym same) was
          ],
          inr (
              in_time repo (since now s.queue.depth_cache_time) s.queue.depth_cache_ttl i.ttl
                young),
        )
      ]
