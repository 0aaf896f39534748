-- ===== src/Postgres/Cache.antt =====
-- How old the depth can be that PostgresTaskQueue answers (task_queue.go).
use background_tasks.Base.{
  ◌<ℤ◌, ap, subst, ◌≡◌, ◌≤◌, refl, sym, ◌⊎◌, inl, inr, ◌∙◌, pos, ltb_ℤ, true, Option, none, some,
  List, [], ◌∷◌, ◌*◌, second, since, String, Time, Duration, arith, length, ltb,
}
use background_tasks.Task.{BackgroundTask, TaskStatus, ResourceRequirements}
use background_tasks.Memory.{DepthMap}
use background_tasks.Postgres.{
  Answer, ok, failed, TaskRepository, PostgresTaskQueue, value, count_priorities,
  new_postgres_task_queue, invalidate_cache, enqueue, dequeue, requeue, move_to_dead_letter,
  get_queue_depth,
}

module _ {R : Type 0} (repo : TaskRepository R) where
  abbrev pub counted_in : R → Answer DepthMap
  counted_in store = elim (repo.get_by_status store TaskStatus.pending 10000 0) [
    | failed e ↦ failed e
    | ok ts ↦ ok (count_priorities ts [])
  ]

  -- One call of the queue, or a change of the repository by another process.
  pub data Call (q : PostgresTaskQueue R) : PostgresTaskQueue R → Type 0 where
    enqueues : (t : Option BackgroundTask) (now : Time) → Call q (enqueue repo q t now).0
    dequeues : (worker : String) (req : ResourceRequirements) → Call q (dequeue repo q worker req).0
    requeues :
        (id : String) (delay : Duration) (now : Time) → Call q (requeue repo q id delay now).0
    buries : (id reason : String) → Call q (move_to_dead_letter repo q id reason).0
    asks : (now later : Time) → Call q (get_queue_depth repo q now later).0
    changes : (store : R) → Call q (record q { store = store })

  -- A history of calls; the list holds the states of the repository so far, the last one first.
  pub data History : List R → PostgresTaskQueue R → Type 0 where
    begin : (store : R) → History (store ∷ []) (new_postgres_task_queue store)
    call :
        {past : List R} {q q' : PostgresTaskQueue R}
        → History past q
        → Call q q'
        → History (q'.store ∷ past) q'

  -- The depth was counted in one of the states.
  abbrev pub CountedIn : List R → DepthMap → Type 0
  CountedIn [] depth = ⊥
  CountedIn (store ∷ past) depth = (counted_in store ≡ ok depth) ⊎ CountedIn past depth

  -- A call that succeeds and changes a task.
  pub data Write (q q' : PostgresTaskQueue R) : Type 0 where
    enqueued :
        (t : Option BackgroundTask) (now : Time)
        → enqueue repo q t now ≡ (q', value tt)
        → Write q q'
    dequeued :
        (worker : String) (req : ResourceRequirements) (t : BackgroundTask)
        → dequeue repo q worker req ≡ (q', value (some t))
        → Write q q'
    requeued :
        (id : String) (delay : Duration) (now : Time)
        → requeue repo q id delay now ≡ (q', value tt)
        → Write q q'
    buried :
        (id reason : String) → move_to_dead_letter repo q id reason ≡ (q', value tt) → Write q q'

  -- A write leaves the cache as it was and takes its time away.
  pub Write-shape :
      {q q' : PostgresTaskQueue R}
      → Write q q'
      → q' ≡ invalidate_cache (record q { store = q'.store })
  unfolding enqueue dequeue requeue move_to_dead_letter
  Write-shape {q} {q'} (enqueued none now h) = ground arith
  Write-shape {q} {q'} (enqueued (some t) now h) = ground arith
  Write-shape {q} {q'} (dequeued worker req t h) = ground arith
  Write-shape {q} {q'} (requeued id delay now h) = ground arith
  Write-shape {q} {q'} (buried id reason h) = ground arith

  Write-dropped :
      {q q' : PostgresTaskQueue R}
      → Write q q'
      → (q'.depth_cache_time ≡ 0) × (q'.depth_cache_ttl ≡ q.depth_cache_ttl)
  unfolding enqueue dequeue requeue move_to_dead_letter
  Write-dropped {q} (enqueued none now h) = ground arith
  Write-dropped {q} (enqueued (some t) now h) = ground arith
  Write-dropped {q} (dequeued worker req t h) = ground arith
  Write-dropped {q} (requeued id delay now h) = ground arith
  Write-dropped {q} (buried id reason h) = ground arith

  -- The queue keeps its time to live, its store is the newest state, and its cache was counted.
  record Sound (past : List R) (q : PostgresTaskQueue R) : Type 0 where
    pub ttl : q.depth_cache_ttl ≡ pos (5 * second)
    pub older : List R
    pub newest : past ≡ q.store ∷ older
    pub counted : (q.cached_depth ≡ []) ⊎ CountedIn past q.cached_depth

  Call-keeps :
      {q q' : PostgresTaskQueue R}
      → Call q q'
      → (q'.depth_cache_ttl ≡ q.depth_cache_ttl)
        × ((q'.cached_depth ≡ q.cached_depth)
            ⊎ ((q'.store ≡ q.store) × (counted_in q.store ≡ ok q'.cached_depth)))
  unfolding enqueue dequeue requeue move_to_dead_letter get_queue_depth
  Call-keeps {q} (enqueues none now) = ground arith
  Call-keeps {q} (enqueues (some t) now) = ground arith
  Call-keeps {q} (dequeues worker req) = ground arith
  Call-keeps {q} (requeues id delay now) = ground arith
  Call-keeps {q} (buries id reason) = ground arith
  Call-keeps {q} (asks now later) = ground arith
  Call-keeps {q} (changes store) = ground arith

  -- After a write that succeeds the depth is counted anew in the repository, whatever was in the
  -- cache, on a clock that is past the five seconds of the time to live.
  pub write_then_depth :
      {q q' : PostgresTaskQueue R} (now later : Time)
      → q.depth_cache_ttl ≡ pos (5 * second)
      → 5 * second ≤ now
      → Write q q'
      → (get_queue_depth repo q' now later).1 ≡ counted_in q'.store
  unfolding get_queue_depth
  write_then_depth {q} {q'} now later ttl late w =
      let (dropped, same) = Write-dropped w in ground arith

  History-Sound : {past : List R} {q : PostgresTaskQueue R} → History past q → Sound past q
  History-Sound (begin store) = record { ttl = refl; older = []; newest = refl; counted = inl refl }
  History-Sound (call {past} {q} {q'} h c) =
      let i = History-Sound h in
      let (ttl, depth) = Call-keeps c in
      record {
        ttl = ttl ∙ i.ttl;
        older = past;
        newest = refl;
        counted = elim depth [
          | inl same ↦ elim i.counted [
            | inl empty ↦ inl (same ∙ empty)
            | inr was ↦ inr (inr (subst (CountedIn past) (sym same) was))
          ]
          | inr (still, now) ↦ inr (inl (ap counted_in still ∙ now))
        ];
      }

  pub answer_cases :
      (q : PostgresTaskQueue R) (now later : Time) (depth : DepthMap)
      → (get_queue_depth repo q now later).1 ≡ ok depth
      → (counted_in q.store ≡ ok depth)
        ⊎ ((depth ≡ q.cached_depth)
            × (ltb_ℤ (since now q.depth_cache_time) q.depth_cache_ttl ≡ true)
            × (ltb 0 (length q.cached_depth) ≡ true))
  unfolding get_queue_depth
  answer_cases q now later depth e = ground arith

  pub no_depth : (depth : DepthMap) → depth ≡ [] → ltb 0 (length depth) ≡ true → ⊥
  no_depth depth e h = ground arith

  pub in_time :
      (age ttl : Duration) → ttl ≡ pos (5 * second) → ltb_ℤ age ttl ≡ true → age <ℤ pos (5 * second)
  in_time age ttl e h = ground arith

  -- Whatever happened to the queue and to the repository behind it, a depth that is answered was
  -- counted in a state that the repository had; if it is not the count of the present state, the
  -- cache was filled less than five seconds before.
  pub depth_was_counted :
      {past : List R} {q : PostgresTaskQueue R} (now later : Time) (depth : DepthMap)
      → History past q
      → (get_queue_depth repo q now later).1 ≡ ok depth
      → CountedIn past depth
        × ((counted_in q.store ≡ ok depth) ⊎ (since now q.depth_cache_time <ℤ pos (5 * second)))
  depth_was_counted {past} {q} now later depth h e =
      let i = History-Sound h in
      elim (answer_cases q now later depth e) [
        | inl present ↦
            (subst (λ states. CountedIn states depth) (sym i.newest) (inl present), inl present)
        | inr (same, young, some_depth) ↦ (
          elim i.counted [
            | inl empty ↦ absurd (no_depth q.cached_depth empty some_depth)
            | inr was ↦ subst (CountedIn past) (sym same) was
          ],
          inr (in_time (since now q.depth_cache_time) q.depth_cache_ttl i.ttl young),
        )
      ]
