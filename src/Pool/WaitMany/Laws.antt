-- ===== src/Pool/WaitMany/Laws.antt =====
-- WaitForMultiple gives each task its own result, in whatever order they arrive (worker_pool.go).
use mathlib.Core.List.{Mem, mem-cons, not-mem-nil}
use mathlib.Core.Logic.Or
use mathlib.Core.HLevel.{⊥_prop}
use package.text.Mathlib.TextEquality.{eq_iff}
use background_tasks.Base.{
  ℕ, zero, suc, ◌<◌, ◌≡◌, ◌≢◌, refl, sym, subst, ◌∙◌, ap, ◌⊎◌, inl, inr, Option, none, some, List,
  [], ◌∷◌, String, Duration, lookup, insert, lookup-insert, str_eq, if◌then◌else◌, arith,
  Option-cases, length, get_elem?, All,
}
use background_tasks.Pool.Wait.{OutputOutcome}
use background_tasks.Pool.WaitMany.{
  WaitResult, Arrivals, sent, sent_messages, message_of, receive, wait_for_multiple,
}

-- The last result with the id `k`.
last_result : String → Arrivals → Option WaitResult
last_result k [] = none
last_result k ((id, r) ∷ later) =
    let rest = last_result k later in
    elim rest [ some r' ↦ some r' | none ↦ if str_eq id k then some r else none ]

abbrev or_old : Option WaitResult → Option WaitResult → Option WaitResult
or_old none old = old
or_old (some r) old = some r

-- All messages are put into the map.
collect : Arrivals → Arrivals → Arrivals
collect results [] = results
collect results ((id, r) ∷ later) = collect (insert id r results) later

receive-collect :
    (ids : List String) (channel results : Arrivals)
    → length channel ≡ length ids
    → receive ids channel results ≡ some (collect results channel)
unfolding receive collect
receive-collect [] [] results h = refl
receive-collect [] (m ∷ channel) results h = absurd (omega arith)
receive-collect (_ ∷ ids) [] results h = absurd (omega arith)
receive-collect (_ ∷ ids) ((id, r) ∷ channel) results h =
    receive-collect ids channel (insert id r results) (omega arith)

collect-lookup :
    (k : String) (results arrived : Arrivals)
    → lookup k (collect results arrived) ≡ or_old (last_result k arrived) (lookup k results)
unfolding collect last_result
collect-lookup k results [] = refl
collect-lookup k results ((id, r) ∷ later) =
    ground (arith, collect-lookup k (insert id r results) later, lookup-insert id k r results)

or_old-none : (o : Option WaitResult) → or_old o none ≡ o
or_old-none none = refl
or_old-none (some r) = refl

collected :
    (k : String) (arrived : Arrivals) → lookup k (collect [] arrived) ≡ last_result k arrived
unfolding lookup
collected k arrived = collect-lookup k [] arrived ∙ or_old-none (last_result k arrived)

cons_cases :
    (k id : String) (r0 : WaitResult) (later : Arrivals) (r : WaitResult)
    → last_result k ((id, r0) ∷ later) ≡ some r
    → (last_result k later ≡ some r) ⊎ ((id ≡ k) × (r0 ≡ r))
unfolding last_result
cons_cases k id r0 later r h = elim (Option-cases (last_result k later)) [
  | inl e ↦ inr (ground (arith, eq_iff id k), ground (arith, eq_iff id k))
  | inr (r', e) ↦ inl (ground arith)
]

cons_none :
    (k id : String) (r0 : WaitResult) (later : Arrivals)
    → last_result k ((id, r0) ∷ later) ≡ none
    → (last_result k later ≡ none) × (id ≢ k)
unfolding last_result
cons_none k id r0 later h = elim (Option-cases (last_result k later)) [
  | inl e ↦ (e, λ same. ground (arith, eq_iff id k))
  | inr (r', e) ↦ absurd (ground arith)
]

-- Every goroutine sends once.
pub record IsSchedule (order : List ℕ) (n : ℕ) : Type 0 where
  pub once : length order ≡ n
  pub bounded : All (λ i. i < n) order
  pub each : (i : ℕ) → i < n → Mem i order

module _ (ids : List String) (waits : ℕ → Duration × OutputOutcome) where
  -- The goroutine at position `i` waits for `id` and sends `r`.
  abbrev pub Sends : ℕ → String → WaitResult → Type 0
  Sends i id r = (get_elem? ids i ≡ some id) × (sent (waits i).0 (waits i).1 ≡ some r)

  -- Every wait comes to an end.
  abbrev pub AllEnd : Type 0
  AllEnd = (i : ℕ) → i < length ids → (r : WaitResult) × (sent (waits i).0 (waits i).1 ≡ some r)

  found_in : (xs : List String) (i : ℕ) → i < length xs → (id : String) × (get_elem? xs i ≡ some id)
  found_in [] i h = absurd (omega arith)
  found_in (x ∷ xs) zero h = (x, refl)
  found_in (x ∷ xs) (suc i) h = found_in xs i (omega arith)

  within : (xs : List String) (i : ℕ) (id : String) → get_elem? xs i ≡ some id → i < length xs
  within [] i id h = absurd (ground arith)
  within (x ∷ xs) zero id h = omega arith
  within (x ∷ xs) (suc i) id h = omega (arith, within xs i id h)

  sends : AllEnd → (i : ℕ) → i < length ids → (id : String) × (r : WaitResult) × Sends i id r
  sends all i h = let (id, e) = found_in ids i h in let (r, e') = all i h in (id, r, (e, e'))

  sent_messages-first :
      (i : ℕ) (order : List ℕ) (id : String) (r : WaitResult)
      → Sends i id r
      → sent_messages ids waits (i ∷ order) ≡ (id, r) ∷ sent_messages ids waits order
  unfolding sent_messages message_of
  sent_messages-first i order id r (e, e') = rw (e, e', sent_messages, message_of) refl

  sent_messages-length :
      (order : List ℕ)
      → AllEnd
      → All (λ i. i < length ids) order
      → length (sent_messages ids waits order) ≡ length order
  sent_messages-length [] all h = unfold sent_messages in refl
  sent_messages-length (i ∷ order) all (h, hs) =
      let (id, r, s) = sends all i h in
      ap length (sent_messages-first i order id r s) ∙ ap suc (sent_messages-length order all hs)

  result_sent :
      (order : List ℕ) (id : String) (r : WaitResult)
      → AllEnd
      → All (λ i. i < length ids) order
      → last_result id (sent_messages ids waits order) ≡ some r
      → (i : ℕ) × Sends i id r
  result_sent [] id r all h e = absurd (unfold sent_messages last_result in ground arith)
  result_sent (i ∷ order) id r all (h, hs) e =
      let (id0, r0, s) = sends all i h in
      let e' = sym (ap (last_result id) (sent_messages-first i order id0 r0 s)) ∙ e in
      elim (cons_cases id id0 r0 (sent_messages ids waits order) r e') [
        | inl later ↦ result_sent order id r all hs later
        | inr (same, it) ↦ (i, (s.0 ∙ ap some same, s.1 ∙ ap some it))
      ]

  not_missing :
      (order : List ℕ) (i : ℕ) (id : String)
      → AllEnd
      → All (λ j. j < length ids) order
      → get_elem? ids i ≡ some id
      → Mem i order
      → last_result id (sent_messages ids waits order) ≡ none
      → ⊥
  not_missing [] i id all h at m e = not-mem-nil m
  not_missing (j ∷ order) i id all (h, hs) at m e =
      let (id0, r0, s) = sends all j h in
      let e' = sym (ap (last_result id) (sent_messages-first j order id0 r0 s)) ∙ e in
      let (rest, other_id) = cons_none id id0 r0 (sent_messages ids waits order) e' in
      Or.elim ⊥_prop (mem-cons.0 m)
        (λ same. other_id (the_same id0 id (sym s.0 ∙ ap (get_elem? ids) (sym same) ∙ at)))
        (λ later. not_missing order i id all hs at later rest)
    where
      the_same : (a b : String) → ◌≡◌ {A = Option String} (some a) (some b) → a ≡ b
      the_same a b q = cc

  -- If every wait comes to an end, WaitForMultiple returns, in whatever order its goroutines come to
  -- send, and no message is missing: an id that was not given has no result, and an id that was given
  -- has the result of the wait at one of its positions, which is the only one if the id was given once.
  pub wait_for_multiple_lem :
      (order : List ℕ)
      → IsSchedule order (length ids)
      → AllEnd
      → (results : Arrivals) × (wait_for_multiple ids waits order ≡ some results)
        × ((id : String) → ((i : ℕ) → get_elem? ids i ≢ some id) → lookup id results ≡ none)
        × ((id : String) (k : ℕ)
            → get_elem? ids k ≡ some id
            → (r : WaitResult) × (lookup id results ≡ some r)
              × ((i : ℕ) × Sends i id r)
              × (((i : ℕ) → get_elem? ids i ≡ some id → i ≡ k) → Sends k id r))
  unfolding wait_for_multiple
  wait_for_multiple_lem order plan all = (
    collect [] (sent_messages ids waits order),
    receive-collect ids (sent_messages ids waits order) []
        (sent_messages-length order all plan.bounded ∙ plan.once),
    (λ id unknown. elim (Option-cases (last_result id (sent_messages ids waits order))) [
      | inl e ↦ collected id _ ∙ e
      | inr (r, e) ↦
          let (i, s) = result_sent order id r all plan.bounded e in absurd (unknown i s.0)
    ]),
    (λ id k at. elim (Option-cases (last_result id (sent_messages ids waits order))) [
      | inl e ↦
          absurd (not_missing order k id all plan.bounded at (plan.each k (within ids k id at)) e)
      | inr (r, e) ↦
          let (i, s) = result_sent order id r all plan.bounded e in
          (r, collected id _ ∙ e, (i, s), λ only. subst (λ j. Sends j id r) (only i s.0) s)
    ]),
  )
