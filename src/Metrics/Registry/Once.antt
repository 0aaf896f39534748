-- ===== src/Metrics/Registry/Once.antt =====
-- The collectors of the pool are registered once (metrics.go).
use background_tasks.Base.{
  ◌≡◌, ◌≤◌, refl, ◌∙◌, ap, Bool, true, false, ◌&&◌, not, Option, none, some, List, [], ◌∷◌, str_eq,
  arith, All, ◌⊎◌, inl, inr, Bool-cases, Option-cases,
}
use background_tasks.Metrics.Registry.{
  Collector, namespace, subsystem, collectors, Registry, register_all, new_worker_pool_metrics,
  Globals, set_global_metrics, Got, panicked, GlobalCall, gets, sets, fresh_globals,
  get_global_metrics, run,
}

abbrev differs : Collector → List Collector → Bool
differs c [] = true
differs c (d ∷ ds) = not (str_eq c.name d.name) && differs c ds

abbrev distinct : List Collector → Bool
distinct [] = true
distinct (c ∷ cs) = differs c cs && distinct cs

-- No two collectors have the same name.
collectors-distinct : distinct collectors ≡ true
unfolding collectors
collectors-distinct = refl

module _ {P : Type 0} (registry : Registry P) where
  -- The registry has none of the names.
  abbrev pub Free : P → List Collector → Type 0
  Free p = All λ c. registry.has p namespace subsystem c.name ≡ false

  Free-register :
      (p : P) (c : Collector) (cs : List Collector)
      → (registry.register p namespace subsystem c).1 ≡ true
      → differs c cs ≡ true
      → Free p cs
      → Free (registry.register p namespace subsystem c).0 cs
  Free-register p c [] ok apart free = tt
  Free-register p c (d ∷ ds) ok apart (f, fs) = (
    ground (arith, registry.has-register p namespace subsystem c d.name ok),
    Free-register p c ds ok (ground arith) fs,
  )

  register_all-Free :
      (p : P) (cs : List Collector)
      → distinct cs ≡ true
      → Free p cs
      → (register_all registry p cs).1 ≡ true
  unfolding register_all
  register_all-Free p [] apart free = refl
  register_all-Free p (c ∷ cs) apart (f, fs) =
      let ok = registry.register-new p namespace subsystem c f in
      rw ok (
        register_all-Free (registry.register p namespace subsystem c).0 cs (ground arith)
          (Free-register p c cs ok (ground arith) fs))

  -- NewWorkerPoolMetrics ends without a panic on a registry that has none of its names.
  pub new_worker_pool_metrics-Free :
      (p : P) → Free p collectors → (new_worker_pool_metrics registry p).1 ≡ true
  unfolding new_worker_pool_metrics
  new_worker_pool_metrics-Free p free = register_all-Free p collectors collectors-distinct free

  -- What the calls of GetGlobalMetrics and SetGlobalMetrics keep, from a registry `p`.
  record Kept (p : P) (g : Globals P) : Type 0 where
    pub at_most_one : g.made ≤ 1
    pub registered :
        ((g.made ≡ 0) × (g.prometheus ≡ p))
        ⊎ ((g.made ≡ 1)
            × (g.once_done ≡ true)
            × (g.prometheus ≡ (new_worker_pool_metrics registry p).0))

  abbrev pub Answered : Option Got → Type 0
  Answered (some panicked) = ⊥
  Answered _ = Unit

  get-Kept :
      (p : P) (g : Globals P)
      → (new_worker_pool_metrics registry p).1 ≡ true
      → Kept p g
      → Kept p (get_global_metrics registry g).0 × Answered (some (get_global_metrics registry g).1)
  unfolding get_global_metrics
  get-Kept p g works k = elim (Bool-cases g.once_done) [
    | inl done ↦ simp done ((k, tt))
    | inr first ↦ elim (Option-cases g.global_metrics) [
      | inr (m, given) ↦
          simp (first, given)
            ((
              record {
                at_most_one = k.at_most_one;
                registered = inl (untouched first k.registered);
              },
              tt,
            ))
      | inl nil ↦ creates first nil (untouched first k.registered)
    ]
  ]
    where
      untouched :
          g.once_done ≡ false
          → ((g.made ≡ 0) × (g.prometheus ≡ p))
            ⊎ ((g.made ≡ 1)
                × (g.once_done ≡ true)
                × (g.prometheus ≡ (new_worker_pool_metrics registry p).0))
          → (g.made ≡ 0) × (g.prometheus ≡ p)
      untouched first (inl h) = h
      untouched first (inr (m, done, h)) = cc

      creates :
          g.once_done ≡ false
          → g.global_metrics ≡ none
          → (g.made ≡ 0) × (g.prometheus ≡ p)
          → Kept p (get_global_metrics registry g).0
            × Answered (some (get_global_metrics registry g).1)
      creates first nil (none_made, same) =
          simp (first, nil, ap (λ q. (new_worker_pool_metrics registry q).1) same ∙ works)
            ((
              record {
                at_most_one = omega (arith, none_made);
                registered = inr (
                  omega (arith, none_made),
                  refl,
                  ap (λ q. (new_worker_pool_metrics registry q).0) same,
                );
              },
              tt,
            ))

  run-Kept :
      (p : P) (g : Globals P) (cs : List GlobalCall)
      → (new_worker_pool_metrics registry p).1 ≡ true
      → Kept p g
      → Kept p (run registry g cs).0 × All Answered (run registry g cs).1
  unfolding run
  run-Kept p g [] works k = (k, tt)
  run-Kept p g (gets ∷ cs) works k =
      let (k', a) = get-Kept p g works k in
      let (k'', rest) = run-Kept p (get_global_metrics registry g).0 cs works k' in (k'', (a, rest))
  run-Kept p g (sets m ∷ cs) works k =
      let (k'', rest) =
        run-Kept p (set_global_metrics m g) cs works
          (record { at_most_one = k.at_most_one; registered = k.registered }) in
      (k'', (tt, rest))

  -- In a process whose registry has none of the names of the collectors, no call of
  -- GetGlobalMetrics panics, in whatever order it and SetGlobalMetrics are called: metrics are made
  -- at most once, and the registry is as it was if none were made, and else as one call of
  -- NewWorkerPoolMetrics leaves it.
  pub global_metrics_once :
      (p : P) (cs : List GlobalCall)
      → Free p collectors
      → let (g, answers) = run registry (fresh_globals p) cs in
        All Answered answers
        × (((g.made ≡ 0) × (g.prometheus ≡ p))
            ⊎ ((g.made ≡ 1) × (g.prometheus ≡ (new_worker_pool_metrics registry p).0)))
  global_metrics_once p cs free =
      let (k, answered) =
        run-Kept p (fresh_globals p) cs (new_worker_pool_metrics-Free p free)
          (record { at_most_one = omega arith; registered = inl (refl, refl) }) in
      (answered, elim k.registered [ inl h ↦ inl h | inr (m, d, h) ↦ inr (m, h) ])
