-- ===== src/Resources/Recent.antt =====
-- How old the resources can be that GetSystemResources answers (resource_monitor.go).
use background_tasks.Base.{
  ◌*◌, ◌≡◌, refl, ◌⊎◌, inl, inr, pos, ltb_ℤ, true, some, List, [], ◌∷◌, Time, Duration, ◌<ℤ◌,
  second, since, arith, String, Option-cases, Bool-cases,
}
use background_tasks.Float.{FloatOps}
use background_tasks.Pool.Scale.{SystemResources}
use background_tasks.Postgres.{ok, failed, Answer-cases}
use background_tasks.Resources.{
  SystemReadings, ResourceCache, new_resource_cache, read_system, refresh, get_system_resources,
}

in_time :
    (age ttl : Duration) → ttl ≡ pos (2 * second) → ltb_ℤ age ttl ≡ true → age <ℤ pos (2 * second)
in_time age ttl e h = ground arith

module _ (ops : FloatOps) where
  -- A history of calls; the list holds the readings that were offered and the instants at which they
  -- were stored, the last first.
  pub data History : List (SystemReadings × Time) → ResourceCache → Type 0 where
    begin : History [] new_resource_cache
    asked :
        {past : List (SystemReadings × Time)} {c : ResourceCache}
        → History past c
        → (r : SystemReadings) (now later : Time)
        → History ((r, later) ∷ past) (get_system_resources ops c r now later).0

  -- The resources are those of one of the readings, and were stored then.
  abbrev pub ReadIn : List (SystemReadings × Time) → SystemResources → Time → Type 0
  ReadIn [] resources at = ⊥
  ReadIn ((r, later) ∷ past) resources at =
      ((read_system ops r ≡ ok resources) × (later ≡ at)) ⊎ ReadIn past resources at

  record Kept (past : List (SystemReadings × Time)) (c : ResourceCache) : Type 0 where
    ttl : c.cache_ttl ≡ pos (2 * second)
    origin :
        (resources : SystemResources)
        → c.cached_resources ≡ some resources
        → ReadIn past resources c.cache_time

  pub answer_cases :
      (c : ResourceCache) (r : SystemReadings) (now later : Time)
      → ((resources : SystemResources) × (c.cached_resources ≡ some resources)
          × (ltb_ℤ (since now c.cache_time) c.cache_ttl ≡ true)
          × (get_system_resources ops c r now later ≡ (c, ok resources)))
        ⊎ (get_system_resources ops c r now later ≡ refresh ops c r later)
  unfolding get_system_resources
  answer_cases c r now later = elim (Option-cases c.cached_resources) [
    | inl e ↦ inr (simp (e, get_system_resources))
    | inr (resources, e) ↦ elim (Bool-cases (ltb_ℤ (since now c.cache_time) c.cache_ttl)) [
      | inl fresh ↦ inl (resources, e, fresh, simp (e, get_system_resources, fresh))
      | inr stale ↦ inr (simp (e, get_system_resources, stale))
    ]
  ]

  refresh_cases :
      (c : ResourceCache) (r : SystemReadings) (later : Time)
      → ((e : String) × (read_system ops r ≡ failed e) × (refresh ops c r later ≡ (c, failed e)))
        ⊎ ((resources : SystemResources) × (read_system ops r ≡ ok resources)
            × (refresh ops c r later ≡ (
              record c { cached_resources = some resources; cache_time = later },
              ok resources,
            )))
  refresh_cases c r later = elim (Answer-cases (read_system ops r)) [
    | inl (resources, h) ↦ inr (resources, h, rw (h, refresh) refl)
    | inr (e, h) ↦ inl (e, h, rw (h, refresh) refl)
  ]

  refresh-Kept :
      {past : List (SystemReadings × Time)} {c : ResourceCache} (r : SystemReadings) (later : Time)
      → Kept past c
      → Kept ((r, later) ∷ past) (refresh ops c r later).0
  refresh-Kept {past} {c} r later kept = elim (refresh_cases c r later) [
    | inl (e, h, q) ↦ rw q (record { ttl = kept.ttl; origin = λ res e'. inr (kept.origin res e') })
    | inr (resources, h, q) ↦ rw q (record { ttl = kept.ttl; origin = λ res e'. inl (cc, refl) })
  ]

  History-Kept :
      {past : List (SystemReadings × Time)} {c : ResourceCache} → History past c → Kept past c
  History-Kept begin = record { ttl = refl; origin = λ resources e. ground arith }
  History-Kept (asked {past} {c} h r now later) =
      let kept = History-Kept h in
      elim (answer_cases c r now later) [
        | inl (resources, e, fresh, q) ↦
            rw q (record { ttl = kept.ttl; origin = λ res e'. inr (kept.origin res e') })
        | inr q ↦ rw q (refresh-Kept r later kept)
      ]

  -- Whatever GetSystemResources answers after any history of calls was read by this call, or by an
  -- earlier one less than two seconds ago.
  pub get_system_resources_recent :
      {past : List (SystemReadings × Time)} {c c' : ResourceCache} (r : SystemReadings)
      (now later : Time) (resources : SystemResources)
      → History past c
      → get_system_resources ops c r now later ≡ (c', ok resources)
      → (read_system ops r ≡ ok resources)
        ⊎ ((at : Time) × ReadIn past resources at × (since now at <ℤ pos (2 * second)))
  get_system_resources_recent {past} {c} {c'} r now later resources h got =
      let kept = History-Kept h in
      elim (answer_cases c r now later) [
        | inl (cached, e, fresh, q) ↦
            inr (c.cache_time, kept.origin resources (cc), in_time _ _ kept.ttl fresh)
        | inr q ↦ elim (refresh_cases c r later) [
          | inl (e, k, s) ↦ cc
          | inr (read, k, s) ↦ inl (cc)
        ]
      ]
