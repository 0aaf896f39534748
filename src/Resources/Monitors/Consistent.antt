-- ===== src/Resources/Monitors/Consistent.antt =====
-- The map of the monitors and the monitors themselves (resource_monitor.go).
use text.Mathlib.TextEquality.{eq_iff}
use background_tasks.Base.{
  ℕ, ◌≡◌, sym, ◌∙◌, ap, subst, inl, inr, Bool, true, false, none, some, [], ◌∷◌, ◌++◌, String,
  lookup, insert, delete, lookup-insert, lookup-delete, length, get_elem?, ◌==◌, str_eq, arith,
  Bool-cases,
}
use background_tasks.Stuck.{ResourceSnapshot}
use background_tasks.Resources.Monitors.{ProcessMonitor, Monitors, set_at, write_monitor}
use background_tasks.Resources.Monitors.Positions.{
  get_elem?-append, get_elem?-length, same_place, set_here, set_there, here, there,
}

-- The map holds the open monitors, each under its task.
pub record IsConsistent (s : Monitors) : Type 0 where
  pub listed :
      (id : String) (i : ℕ)
      → lookup id s.monitors ≡ some i
      → (pm : ProcessMonitor) × (get_elem? s.made i ≡ some pm)
        × (pm.task_id ≡ id)
        × (pm.stopped ≡ false)
  pub opened :
      (i : ℕ) (pm : ProcessMonitor)
      → get_elem? s.made i ≡ some pm
      → pm.stopped ≡ false
      → lookup pm.task_id s.monitors ≡ some i
  pub own :
      (i : ℕ) (pm : ProcessMonitor) (snapshot : ResourceSnapshot)
      → get_elem? s.made i ≡ some pm
      → pm.last_snapshot ≡ some snapshot
      → snapshot.task_id ≡ pm.task_id

-- A monitor is written and keeps its task and whether it is stopped.
pub rewritten :
    (s : Monitors) (i : ℕ) (pm pm' : ProcessMonitor)
    → get_elem? s.made i ≡ some pm
    → pm'.task_id ≡ pm.task_id
    → pm'.stopped ≡ pm.stopped
    → ((snapshot : ResourceSnapshot)
        → pm'.last_snapshot ≡ some snapshot
        → snapshot.task_id ≡ pm'.task_id)
    → IsConsistent s
    → IsConsistent (write_monitor s i pm')
rewritten s i pm pm' at same_id same_stop owned kept = record {
  listed = λ id j h.
      let (old, was, named, live) = kept.listed id j h in
      elim (Bool-cases (i == j)) [
        | inl e ↦ (
          pm',
          set_here s.made i pm pm' at j e,
          same_id ∙ ap (λ p. p.task_id) (there s.made i pm pm' at j e old was) ∙ named,
          same_stop ∙ ap (λ p. p.stopped) (there s.made i pm pm' at j e old was) ∙ live,
        )
        | inr e ↦ (old, set_there s.made i pm pm' at j e ∙ was, named, live)
      ];
  opened = λ j p h live. elim (Bool-cases (i == j)) [
    | inl e ↦
        let live' = sym same_stop ∙ ap (λ q. q.stopped) (here s.made i pm pm' at j e p h) ∙ live in
        ap (λ q. lookup q s.monitors)
          (ap (λ q. q.task_id) (sym (here s.made i pm pm' at j e p h)) ∙ same_id)
        ∙ kept.opened i pm at live'
        ∙ ap some (same_place s.made i pm pm' at j e)
    | inr e ↦ kept.opened j p (sym (set_there s.made i pm pm' at j e) ∙ h) live
  ];
  own = λ j p snapshot h k. elim (Bool-cases (i == j)) [
    | inl e ↦
        let same = here s.made i pm pm' at j e p h in
        owned snapshot (ap (λ q. q.last_snapshot) same ∙ k) ∙ ap (λ q. q.task_id) same
    | inr e ↦ kept.own j p snapshot (sym (set_there s.made i pm pm' at j e) ∙ h) k
  ];
}

-- The monitor of a task is stopped and leaves the map.
pub closed :
    (s : Monitors) (task_id : String) (i : ℕ) (pm : ProcessMonitor)
    → lookup task_id s.monitors ≡ some i
    → get_elem? s.made i ≡ some pm
    → pm.task_id ≡ task_id
    → IsConsistent s
    → IsConsistent (record s {
      made = set_at i (record pm { stopped = true }) s.made;
      monitors = delete task_id s.monitors;
    })
closed s task_id i pm found at named kept = record {
  listed = λ id j h.
      let (old, was, named', live) = kept.listed id j (still_listed id j h) in
      elim (Bool-cases (i == j)) [
        | inl e ↦ absurd (
            gone j (
              subst (λ q. lookup q (delete task_id s.monitors) ≡ some j)
                (sym named'
                  ∙ ap (λ q. q.task_id) (sym (there s.made i pm pm' at j e old was))
                  ∙ named)
                h))
        | inr e ↦ (old, set_there s.made i pm pm' at j e ∙ was, named', live)
      ];
  opened = λ j p h live. elim (Bool-cases (i == j)) [
    | inl e ↦
        absurd (not_open p.stopped (ap (λ q. q.stopped) (here s.made i pm pm' at j e p h)) live)
    | inr e ↦
        others_listed p.task_id j e
          (kept.opened j p (sym (set_there s.made i pm pm' at j e) ∙ h) live)
  ];
  own = λ j p snapshot h k. elim (Bool-cases (i == j)) [
    | inl e ↦
        let same = here s.made i pm pm' at j e p h in
        kept.own i pm snapshot at (ap (λ q. q.last_snapshot) same ∙ k) ∙ ap (λ q. q.task_id) same
    | inr e ↦ kept.own j p snapshot (sym (set_there s.made i pm pm' at j e) ∙ h) k
  ];
}
  where
    pm' : ProcessMonitor
    pm' = record pm { stopped = true }

    gone : (j : ℕ) → lookup task_id (delete task_id s.monitors) ≡ some j → ⊥
    gone j h = ground (arith, lookup-delete task_id task_id s.monitors, eq_iff task_id task_id, h)

    not_open : (b : Bool) → true ≡ b → b ≡ false → ⊥
    not_open b e h = ground arith

    still_listed :
        (id : String) (j : ℕ)
        → lookup id (delete task_id s.monitors) ≡ some j
        → lookup id s.monitors ≡ some j
    still_listed id j h = ground (arith, lookup-delete task_id id s.monitors, h)

    others_listed :
        (id : String) (j : ℕ)
        → (i == j) ≡ false
        → lookup id s.monitors ≡ some j
        → lookup id (delete task_id s.monitors) ≡ some j
    others_listed id j e h =
        ground (arith, lookup-delete task_id id s.monitors, eq_iff task_id id, found, h)

pub appended :
    (s : Monitors) (task_id : String) (new : ProcessMonitor)
    → lookup task_id s.monitors ≡ none
    → new.task_id ≡ task_id
    → new.stopped ≡ false
    → new.last_snapshot ≡ none
    → IsConsistent s
    → IsConsistent (record s {
      made = s.made ++ new ∷ [];
      monitors = insert task_id (length s.made) s.monitors;
    })
appended s task_id new free named live fresh kept = record {
  listed = λ id j h. elim (Bool-cases (str_eq task_id id)) [
    | inl e ↦
        let at_end : j ≡ length s.made = found id j e h in
        (
          new,
          subst (λ k. get_elem? (s.made ++ new ∷ []) k ≡ some new) (sym at_end) last_place,
          named ∙ same_id id e,
          live,
        )
    | inr e ↦
        let (old, was, named', live') = kept.listed id j (elsewhere id j e h) in
        (old, place j old was, named', live')
  ];
  opened = λ j p h live'. elim (Bool-cases (length s.made == j)) [
    | inl e ↦
        ap (λ q. lookup q (insert task_id (length s.made) s.monitors))
          (ap (λ q. q.task_id) (sym (it j p e h)) ∙ named)
        ∙ new_entry j e
    | inr e ↦ old_entry p.task_id j (kept.opened j p (sym (before j e) ∙ h) live')
  ];
  own = λ j p snapshot h k. elim (Bool-cases (length s.made == j)) [
    | inl e ↦ absurd (none_yet snapshot (sym fresh ∙ ap (λ q. q.last_snapshot) (it j p e h) ∙ k))
    | inr e ↦ kept.own j p snapshot (sym (before j e) ∙ h) k
  ];
}
  where
    last_place : get_elem? (s.made ++ new ∷ []) (length s.made) ≡ some new
    last_place = get_elem?-append s.made new (length s.made) ∙ ground arith

    before :
        (j : ℕ)
        → (length s.made == j) ≡ false
        → get_elem? (s.made ++ new ∷ []) j ≡ get_elem? s.made j
    before j e = get_elem?-append s.made new j ∙ ground arith

    same_id : (id : String) → str_eq task_id id ≡ true → task_id ≡ id
    same_id id e = (eq_iff task_id id).0 e

    found :
        (id : String) (j : ℕ)
        → str_eq task_id id ≡ true
        → lookup id (insert task_id (length s.made) s.monitors) ≡ some j
        → j ≡ length s.made
    found id j e h = ground (arith, lookup-insert task_id id (length s.made) s.monitors, h)

    place :
        (j : ℕ) (old : ProcessMonitor)
        → get_elem? s.made j ≡ some old
        → get_elem? (s.made ++ new ∷ []) j ≡ some old
    place j old was = ground (arith, get_elem?-append s.made new j, get_elem?-length s.made)

    elsewhere :
        (id : String) (j : ℕ)
        → str_eq task_id id ≡ false
        → lookup id (insert task_id (length s.made) s.monitors) ≡ some j
        → lookup id s.monitors ≡ some j
    elsewhere id j e h = ground (arith, lookup-insert task_id id (length s.made) s.monitors, h)

    it :
        (j : ℕ) (p : ProcessMonitor)
        → (length s.made == j) ≡ true
        → get_elem? (s.made ++ new ∷ []) j ≡ some p
        → new ≡ p
    it j p e h =
        let at_j = get_elem?-append s.made new j in
        let here : get_elem? (s.made ++ new ∷ []) j ≡ some new = at_j ∙ ground arith in cc

    new_entry :
        (j : ℕ)
        → (length s.made == j) ≡ true
        → lookup task_id (insert task_id (length s.made) s.monitors) ≡ some j
    new_entry j e =
        ground
          (arith, lookup-insert task_id task_id (length s.made) s.monitors, eq_iff task_id task_id)

    old_entry :
        (id : String) (j : ℕ)
        → lookup id s.monitors ≡ some j
        → lookup id (insert task_id (length s.made) s.monitors) ≡ some j
    old_entry id j h =
        ground
          (arith, lookup-insert task_id id (length s.made) s.monitors, eq_iff task_id id, free, h)

    none_yet : (snapshot : ResourceSnapshot) → none ≡ some snapshot → ⊥
    none_yet snapshot e = ground arith
