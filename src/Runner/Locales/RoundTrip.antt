-- ===== src/Runner/Locales/RoundTrip.antt =====
-- The round trip of the first section of the challenge runner passes (challenges/runner/main.go).
use text.Mathlib.TextLemmas.{append_cancel_left}
use background_tasks.Base.{
  ℕ, suc, ◌≡◌, ◌≤◌, ◌↔◌, refl, sym, ◌∙◌, ap, subst, true, false, Option, none, some, List, [], ◌∷◌,
  map, String, lookup-insert, str_eq, eq_iff, arith, Bool-cases, ◌⊎◌, inl, inr, All,
}
use background_tasks.Memory.Ids.{decimal_dash_injective}
use background_tasks.Report.{Report}
use background_tasks.Runner.Queueing.{Line, passed}
use background_tasks.Runner.Locales.{
  Decoded, message, malformed, LocaleExecutor, new_locale_executor, FixtureInput, Job, execute,
  execute_all, seen, round_id, jobs_from, check_message, check_from,
}

abbrev pub Occurs : Job → List Job → Type 0
Occurs j [] = ⊥
Occurs j (k ∷ ks) = (j ≡ k) ⊎ Occurs j ks

-- Input `x` is number `k` of the inputs, which are numbered from `i` on.
abbrev pub At : FixtureInput → ℕ → ℕ → List FixtureInput → Type 0
At x k i [] = ⊥
At x k i (y ∷ ys) = ((k ≡ i) × (x ≡ y)) ⊎ At x k (suc i) ys

round_id_number : (i k : ℕ) (s t : String) → round_id i s ≡ round_id k t → i ≡ k
unfolding round_id
round_id_number i k s t e =
    decimal_dash_injective i k s t (append_cancel_left "round261-task-" _ _ e)

At-le : (x : FixtureInput) (k i : ℕ) (xs : List FixtureInput) → At x k i xs → i ≤ k
At-le x k i [] a = absurd a
At-le x k i (y ∷ ys) (inl (same, _)) = omega (arith, same)
At-le x k i (y ∷ ys) (inr a) = omega (arith, At-le x k (suc i) ys a)

module _ {S : Type 0} (report : S → String → Report → S × Option String) (decode : String → Decoded)
    (percent : ℕ → ℕ) where
  execute_same :
      (w : S × LocaleExecutor) (j : Job) (text id : String)
      → decode j.payload ≡ message text
      → str_eq j.id id ≡ true
      → seen (execute report decode percent w j).0.1 id ≡ some text
  unfolding execute
  execute_same (s, e) j text id good same =
      rw (good, execute) (rw (lookup-insert j.id id text e.processed) (rw same))

  execute_other :
      (w : S × LocaleExecutor) (j : Job) (id : String) (d : Decoded)
      → decode j.payload ≡ d
      → str_eq j.id id ≡ false
      → seen (execute report decode percent w j).0.1 id ≡ seen w.1 id
  unfolding execute
  execute_other (s, e) j id (message text) is_d other =
      rw (is_d, execute) (rw (lookup-insert j.id id text e.processed) (rw other))
  execute_other (s, e) j id (malformed err) is_d other = rw (is_d, execute)

  -- What is seen under an id whose jobs all carry `text`, and one of which is still to be executed,
  -- or has been.
  execute_all-seen :
      (w : S × LocaleExecutor) (js : List Job) (id text : String)
      → ((j : Job) → Occurs j js → j.id ≡ id → decode j.payload ≡ message text)
      → (seen w.1 id ≡ some text) ⊎ ((j : Job) × Occurs j js × (j.id ≡ id))
      → seen (execute_all report decode percent w js).1 id ≡ some text
  unfolding execute_all
  execute_all-seen w [] id text good (inl h) = h
  execute_all-seen w [] id text good (inr (j, o, e)) = absurd o
  execute_all-seen w (j ∷ js) id text good before =
      execute_all-seen (execute report decode percent w j).0 js id text (λ k o e. good k (inr o) e)
        (elim (Bool-cases (str_eq j.id id)) [
          | inl same ↦
              inl (execute_same w j text id (good j (inl refl) ((eq_iff j.id id).0 same)) same)
          | inr other ↦ elim before [
            | inl h ↦ inl (execute_other w j id (decode j.payload) refl other ∙ h)
            | inr (k, o, e) ↦ elim o [
              | inl is_j ↦ absurd (other_id k is_j e other)
              | inr o' ↦ inr (k, o', e)
            ]
          ]
        ])
    where
      other_id : (k : Job) → k ≡ j → k.id ≡ id → str_eq j.id id ≡ false → ⊥
      other_id k is_j e other = ground (arith, eq_iff j.id id, ap (λ (x : Job). x.id) is_j)

  module _ (encode : String → String → String) (rune_count : String → ℕ) where
    later_number :
        (j : Job) (i : ℕ) (xs : List FixtureInput)
        → Occurs j (jobs_from encode rune_count i xs)
        → (n : ℕ) × (t : String) × (i ≤ n) × (j.id ≡ round_id n t)
    unfolding jobs_from
    later_number j i [] o = absurd o
    later_number j i (x ∷ xs) (inl e) = (i, x.locale, omega arith, ap (λ (y : Job). y.id) e)
    later_number j i (x ∷ xs) (inr o) =
        let (n, t, le, e) = later_number j (suc i) xs o in (n, t, omega arith, e)

    -- The id of an input is that of no other.
    same_payload :
        (x : FixtureInput) (k : ℕ) (j : Job) (i : ℕ) (xs : List FixtureInput)
        → At x k i xs
        → Occurs j (jobs_from encode rune_count i xs)
        → j.id ≡ round_id k x.locale
        → j.payload ≡ encode x.locale x.payload_message
    unfolding jobs_from
    same_payload x k j i [] a o e = absurd a
    same_payload x k j i (y ∷ ys) (inl (_, is_y)) (inl is_job) e =
        ap (λ (z : Job). z.payload) is_job
        ∙ ap (λ (z : FixtureInput). encode z.locale z.payload_message) (sym is_y)
    same_payload x k j i (y ∷ ys) (inl (number, is_y)) (inr o) e =
        let (n, t, le, e') = later_number j (suc i) ys o in
        absurd (omega (arith, number, round_id_number n k t x.locale (sym e' ∙ e)))
    same_payload x k j i (y ∷ ys) (inr a) (inl is_job) e = absurd (
        omega (
          arith,
          At-le x k (suc i) ys a,
          round_id_number i k y.locale x.locale (sym (ap (λ (z : Job). z.id) is_job) ∙ e),
        ))
    same_payload x k j i (y ∷ ys) (inr a) (inr o) e = same_payload x k j (suc i) ys a o e

    At-Occurs :
        (x : FixtureInput) (k i : ℕ) (xs : List FixtureInput)
        → At x k i xs
        → Occurs
            (record { id = round_id k x.locale; payload = encode x.locale x.payload_message })
            (jobs_from encode rune_count i xs)
    unfolding jobs_from
    At-Occurs x k i [] a = absurd a
    At-Occurs x k i (y ∷ ys) (inl (number, is_y)) = inl (rw number (rw is_y refl))
    At-Occurs x k i (y ∷ ys) (inr a) = inr (At-Occurs x k (suc i) ys a)

    -- What is asked of an input: its payload decodes to its message, which has enough runes.
    pub record IsGood (x : FixtureInput) : Type 0 where
      pub decodes : decode (encode x.locale x.payload_message) ≡ message x.payload_message
      pub long_enough : x.expected_min_runes ≤ rune_count x.payload_message

    At-IsGood :
        (x : FixtureInput) (k i : ℕ) (xs : List FixtureInput)
        → At x k i xs
        → All IsGood xs
        → IsGood x
    At-IsGood x k i [] a g = absurd a
    At-IsGood x k i (y ∷ ys) (inl (number, is_y)) (g, gs) = subst IsGood (sym is_y) g
    At-IsGood x k i (y ∷ ys) (inr a) (g, gs) = At-IsGood x k (suc i) ys a gs

    check_message_passes :
        (x : FixtureInput) (got : Option String)
        → IsGood x
        → got ≡ some x.payload_message
        → check_message encode rune_count x got ≡ passed x.locale
    check_message_passes x none g e = cc
    check_message_passes x (some s) g e = ground (arith, eq_iff s x.payload_message, g.long_enough)

    check_from_passes :
        (e : LocaleExecutor) (i : ℕ) (xs : List FixtureInput)
        → ((x : FixtureInput) (k : ℕ)
            → At x k i xs
            → seen e (round_id k x.locale) ≡ some x.payload_message)
        → All IsGood xs
        → check_from encode rune_count e i xs ≡ map (λ x. passed x.locale) xs
    unfolding check_from
    check_from_passes e i [] h g = refl
    check_from_passes e i (x ∷ xs) h (g, gs) =
        ap2_lines
          (check_message_passes x (seen e (round_id i x.locale)) g (h x i (inl (refl, refl))))
          (check_from_passes e (suc i) xs (λ y k a. h y k (inr a)) gs)
      where
        ap2_lines : {l l' : Line} {ls ls' : List Line} → l ≡ l' → ls ≡ ls' → l ∷ ls ≡ l' ∷ ls'
        ap2_lines p q = cc

    -- The round trip of the first section passes for every input, whatever the reporter does: if
    -- the jobs that were executed are those of the inputs, in any order, each once or more often,
    -- and each input's payload decodes to its message, which has enough runes, then the executor
    -- shows under the id of each input its own message, and every check prints a pass.
    pub round_trip_passes :
        (s : S) (js : List Job) (xs : List FixtureInput)
        → ((j : Job) → Occurs j js ↔ Occurs j (jobs_from encode rune_count 0 xs))
        → All IsGood xs
        → check_from encode rune_count
            (execute_all report decode percent (s, new_locale_executor) js).1
            0
            xs
          ≡ map (λ x. passed x.locale) xs
    round_trip_passes s js xs same good =
        check_from_passes (execute_all report decode percent (s, new_locale_executor) js).1 0 xs
          (λ x k a.
            execute_all-seen (s, new_locale_executor) js (round_id k x.locale) x.payload_message
              (λ j o e.
                ap decode (same_payload x k j 0 xs a ((same j).0 o) e)
                ∙ (At-IsGood x k 0 xs a good).decodes)
              (inr (_, (same _).1 (At-Occurs x k 0 xs a), refl)))
          good
