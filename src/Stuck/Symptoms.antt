-- ===== src/Stuck/Symptoms.antt =====
-- What the snapshots of a task show when it is called frozen, starved, hung or leaking
-- (stuck_detector.go), said without the loops and the indices of the code.
use background_tasks.Base.{
  ℕ, zero, suc, ◌-◌, ◌≤◌, ◌≡◌, refl, sym, ap, ◌∙◌, ◌⊎◌, inl, inr, ℤ, pos, ◌+ℤ◌, ◌-ℤ◌, ltb_ℤ, ◌<ℤ◌,
  eqb_ℤ, eq_of_parts, true, false, some, List, [], ◌∷◌, ◌++◌, arith, length, take, ltb, Bool-cases,
  get_elem?, subst, ◌==◌,
}
use background_tasks.Float.{FloatOps}
use background_tasks.Stuck.{
  ResourceSnapshot, count_idle, cpu_time, at, last, min3, is_process_frozen, is_io_starved,
  is_network_hung, count_increasing, has_memory_leak,
}

-- At least `n` entries satisfy `P`.
abbrev pub AtLeast : {A : Type 0} → (A → Type 0) → ℕ → List A → Type 0
AtLeast P zero xs = Unit
AtLeast P (suc n) [] = ⊥
AtLeast P (suc n) (x ∷ xs) = (P x × AtLeast P n xs) ⊎ AtLeast P (suc n) xs

-- `o` is the last entry.
abbrev pub IsLast : {A : Type 0} → A → List A → Type 0
IsLast {A} o xs = (before : List A) × (xs ≡ before ++ o ∷ [])

-- Each entry with the one behind it.
abbrev pub pairs : {A : Type 0} → A → List A → List (A × A)
pairs x [] = []
pairs x (y ∷ ys) = (x, y) ∷ pairs y ys

last-IsLast :
    (s : ResourceSnapshot) (rest : List ResourceSnapshot) → IsLast (last s rest) (s ∷ rest)
last-IsLast s [] = ([], refl)
last-IsLast s (r ∷ rest) = let (before, e) = last-IsLast r rest in (s ∷ before, ap (◌∷◌ s) e)

at-get_elem? :
    (s : ResourceSnapshot) (rest : List ResourceSnapshot) (i : ℕ)
    → i ≤ length rest
    → get_elem? (s ∷ rest) i ≡ some (at s rest i)
at-get_elem? s rest zero h = refl
at-get_elem? s [] (suc i) h = absurd (omega arith)
at-get_elem? s (r ∷ rest) (suc i) h = at-get_elem? r rest i (omega arith)

take-whole {ℓ} : {A : Type ℓ} (k : ℕ) (xs : List A) → length xs ≤ k → take k xs ≡ xs
take-whole zero [] h = refl
take-whole zero (x ∷ xs) h = absurd (omega arith)
take-whole (suc k) [] h = refl
take-whole (suc k) (x ∷ xs) h = ap (◌∷◌ x) (take-whole k xs (omega arith))

five_newest : (xs : List ResourceSnapshot) → take (min3 5 (length xs)) xs ≡ take 5 xs
five_newest xs = elim (Bool-cases (ltb 5 (length xs))) [
  | inl more ↦ rw more refl
  | inr few ↦
      rw few (take-whole (length xs) xs (omega arith) ∙ sym (take-whole 5 xs (ground arith)))
]

module _ (ops : FloatOps) where
  abbrev pub Idle : ResourceSnapshot → Type 0
  Idle s = ops.lt s.cpu_percent (ops.lit 1 1) ≡ true

  -- Of the five newest snapshots three use less than 0.1 percent of a processor, and the newest counts
  -- no more than 0.01 seconds of processor time above the oldest of all.
  abbrev pub ShowsFreeze : List ResourceSnapshot → Type 0
  ShowsFreeze [] = ⊥
  ShowsFreeze (s ∷ rest) =
      AtLeast Idle 3 (take 5 (s ∷ rest))
      × ((o : ResourceSnapshot) × IsLast o (s ∷ rest)
          × (ops.lt (ops.lit 1 2) (
                ops.sub (ops.add s.cpu_user_time s.cpu_system_time)
                  (ops.add o.cpu_user_time o.cpu_system_time))
              ≡ false))

  count_idle-AtLeast :
      (n : ℕ) (xs : List ResourceSnapshot) → n ≤ count_idle ops xs → AtLeast Idle n xs
  unfolding count_idle
  count_idle-AtLeast zero xs h = tt
  count_idle-AtLeast (suc n) [] h = absurd (omega arith)
  count_idle-AtLeast (suc n) (x ∷ xs) h = elim (Bool-cases (ops.lt x.cpu_percent (ops.lit 1 1))) [
    | inl idle ↦ inl (idle, count_idle-AtLeast n xs (ground arith))
    | inr busy ↦ inr (count_idle-AtLeast (suc n) xs (ground arith))
  ]

  frozen_cases :
      (s : ResourceSnapshot) (rest : List ResourceSnapshot)
      → is_process_frozen ops (s ∷ rest) ≡ true
      → (3 ≤ count_idle ops (take (min3 5 (suc (length rest))) (s ∷ rest)))
        × (ops.lt (ops.lit 1 2) (ops.sub (cpu_time ops s) (cpu_time ops (last s rest))) ≡ false)
  unfolding is_process_frozen
  frozen_cases s rest h = ground arith

  pub is_process_frozen-ShowsFreeze :
      (xs : List ResourceSnapshot) → is_process_frozen ops xs ≡ true → ShowsFreeze xs
  is_process_frozen-ShowsFreeze [] h = unfold is_process_frozen in ground arith
  is_process_frozen-ShowsFreeze (s ∷ rest) h =
      let (many, slow) = frozen_cases s rest h in
      (
        subst (AtLeast Idle 3) (five_newest (s ∷ rest)) (count_idle-AtLeast 3 _ many),
        (last s rest, last-IsLast s rest, slow),
      )

  -- The entry at position 3, or at 2 if there are only three.
  abbrev pub IsFourth : ResourceSnapshot → List ResourceSnapshot → Type 0
  IsFourth o xs = (get_elem? xs 3 ≡ some o) ⊎ (length xs ≡ 3) × (get_elem? xs 2 ≡ some o)

  at-IsFourth :
      (s : ResourceSnapshot) (rest : List ResourceSnapshot)
      → 2 ≤ length rest
      → IsFourth (at s rest (min3 3 (suc (length rest) - 1))) (s ∷ rest)
  at-IsFourth s rest many = elim (Bool-cases (ltb 3 (suc (length rest) - 1))) [
    | inl more ↦ rw more (inl (at-get_elem? s rest 3 (ground arith)))
    | inr few ↦ elim (Bool-cases (length rest == 3)) [
      | inl three ↦
          let e : suc (length rest) - 1 ≡ 3 = ground arith in
          rw (few, e) (inl (at-get_elem? s rest 3 (omega arith)))
      | inr two ↦
          let e : suc (length rest) - 1 ≡ 2 = ground arith in
          rw (few, e) (inr (ground arith, at-get_elem? s rest 2 (omega arith)))
    ]
  ]

  -- No byte more was read or written since the fourth newest snapshot, though the processor is used, at
  -- less than one percent.
  abbrev pub ShowsStarvation : List ResourceSnapshot → Type 0
  ShowsStarvation [] = ⊥
  ShowsStarvation (s ∷ rest) =
      ((o : ResourceSnapshot) × IsFourth o (s ∷ rest)
        × ((s.io_read_bytes -ℤ o.io_read_bytes) +ℤ (s.io_write_bytes -ℤ o.io_write_bytes) ≡ pos 0))
      × (ops.lt s.cpu_percent (ops.lit 10 1) ≡ true)
      × (ops.lt (ops.lit 0 0) s.cpu_percent ≡ true)

  same_sum : (a b : ℤ) → eqb_ℤ a b ≡ true → a ≡ b
  same_sum a b h = eq_of_parts a b (ground arith)

  starved_cases :
      (s : ResourceSnapshot) (rest : List ResourceSnapshot)
      → is_io_starved ops (s ∷ rest) ≡ true
      → let o = at s rest (min3 3 (suc (length rest) - 1)) in
        (2 ≤ length rest)
        × (eqb_ℤ
              ((s.io_read_bytes -ℤ o.io_read_bytes) +ℤ (s.io_write_bytes -ℤ o.io_write_bytes))
              (pos 0)
            ≡ true)
        × (ops.lt s.cpu_percent (ops.lit 10 1) ≡ true)
        × (ops.lt (ops.lit 0 0) s.cpu_percent ≡ true)
  unfolding is_io_starved
  starved_cases s rest h = ground arith

  pub is_io_starved-ShowsStarvation :
      (xs : List ResourceSnapshot) → is_io_starved ops xs ≡ true → ShowsStarvation xs
  is_io_starved-ShowsStarvation [] h = unfold is_io_starved in ground arith
  is_io_starved-ShowsStarvation (s ∷ rest) h =
      let (many, still, low, used) = starved_cases s rest h in
      ((_, at-IsFourth s rest many, same_sum _ _ still), low, used)

  -- There are connections, but no byte more was sent or received since the fourth newest snapshot, and
  -- the processor is used at less than one percent.
  abbrev pub ShowsHang : List ResourceSnapshot → Type 0
  ShowsHang [] = ⊥
  ShowsHang (s ∷ rest) =
      (pos 0 <ℤ s.net_connections)
      × ((o : ResourceSnapshot) × IsFourth o (s ∷ rest)
          × ((s.net_bytes_sent -ℤ o.net_bytes_sent) +ℤ (s.net_bytes_recv -ℤ o.net_bytes_recv)
              ≡ pos 0))
      × (ops.lt s.cpu_percent (ops.lit 10 1) ≡ true)

  hung_cases :
      (s : ResourceSnapshot) (rest : List ResourceSnapshot)
      → is_network_hung ops (s ∷ rest) ≡ true
      → let o = at s rest (min3 3 (suc (length rest) - 1)) in
        (2 ≤ length rest)
        × (ltb_ℤ (pos 0) s.net_connections ≡ true)
        × (eqb_ℤ
              ((s.net_bytes_sent -ℤ o.net_bytes_sent) +ℤ (s.net_bytes_recv -ℤ o.net_bytes_recv))
              (pos 0)
            ≡ true)
        × (ops.lt s.cpu_percent (ops.lit 10 1) ≡ true)
  unfolding is_network_hung
  hung_cases s rest h = ground arith

  pub is_network_hung-ShowsHang :
      (xs : List ResourceSnapshot) → is_network_hung ops xs ≡ true → ShowsHang xs
  is_network_hung-ShowsHang [] h = unfold is_network_hung in ground arith
  is_network_hung-ShowsHang (s ∷ rest) h =
      let (many, open_ones, still, low) = hung_cases s rest h in
      (positive s.net_connections open_ones, (_, at-IsFourth s rest many, same_sum _ _ still), low)
    where
      positive : (n : ℤ) → ltb_ℤ (pos 0) n ≡ true → pos 0 <ℤ n
      positive n e = ground arith

  abbrev pub Grew : ResourceSnapshot × ResourceSnapshot → Type 0
  Grew (newer, older) = older.memory_rss_bytes <ℤ newer.memory_rss_bytes

  count_increasing-AtLeast :
      (k : ℕ) (s : ResourceSnapshot) (rest : List ResourceSnapshot)
      → k ≤ count_increasing ops s rest
      → AtLeast Grew k (pairs s rest)
  unfolding count_increasing
  count_increasing-AtLeast zero s rest h = tt
  count_increasing-AtLeast (suc k) s [] h = absurd (omega arith)
  count_increasing-AtLeast (suc k) s (r ∷ rest) h =
      elim (Bool-cases (ltb_ℤ r.memory_rss_bytes s.memory_rss_bytes)) [
        | inl more ↦ inl (
          above r.memory_rss_bytes s.memory_rss_bytes more,
          count_increasing-AtLeast k r rest (ground arith),
        )
        | inr less ↦ inr (count_increasing-AtLeast (suc k) r rest (ground arith))
      ]
    where
      above : (a b : ℤ) → ltb_ℤ a b ≡ true → a <ℤ b
      above a b e = ground arith

  -- Of five snapshots or more, so many use more memory than the one before in time that their share is
  -- above 0.8, and the newest uses more than one and a half times what the oldest of all does.
  abbrev pub ShowsLeak : List ResourceSnapshot → Type 0
  ShowsLeak [] = ⊥
  ShowsLeak (s ∷ rest) =
      (4 ≤ length rest)
      × ((k : ℕ) × AtLeast Grew k (pairs s rest)
          × (ops.lt (ops.lit 8 1) (ops.div (ops.of_int (pos k)) (ops.of_int (pos (length rest))))
              ≡ true))
      × ((o : ResourceSnapshot) × IsLast o (s ∷ rest)
          × (pos 0 <ℤ o.memory_rss_bytes)
          × (ops.lt (ops.lit 5 1) (
                ops.div (ops.of_int (s.memory_rss_bytes -ℤ o.memory_rss_bytes))
                  (ops.of_int o.memory_rss_bytes))
              ≡ true))

  leak_cases :
      (s : ResourceSnapshot) (rest : List ResourceSnapshot)
      → has_memory_leak ops (s ∷ rest) ≡ true
      → let o = last s rest in
        (4 ≤ length rest)
        × (ops.lt (ops.lit 8 1) (
              ops.div
                (ops.of_int (pos (count_increasing ops s rest)))
                (ops.of_int (pos (suc (length rest) - 1))))
            ≡ true)
        × (ltb_ℤ (pos 0) o.memory_rss_bytes ≡ true)
        × (ops.lt (ops.lit 5 1) (
              ops.div
                (ops.of_int (s.memory_rss_bytes -ℤ o.memory_rss_bytes))
                (ops.of_int o.memory_rss_bytes))
            ≡ true)
  unfolding has_memory_leak
  leak_cases s rest h = ground arith

  pub has_memory_leak-ShowsLeak :
      (xs : List ResourceSnapshot) → has_memory_leak ops xs ≡ true → ShowsLeak xs
  has_memory_leak-ShowsLeak [] h = unfold has_memory_leak in ground arith
  has_memory_leak-ShowsLeak (s ∷ rest) h =
      let (many, share, used, growth) = leak_cases s rest h in
      let one_less : suc (length rest) - 1 ≡ length rest = omega arith in
      (
        many,
        (
          count_increasing ops s rest,
          count_increasing-AtLeast _ s rest (omega arith),
          subst
              (λ n.
                ops.lt (ops.lit 8 1)
                  (ops.div (ops.of_int (pos (count_increasing ops s rest))) (ops.of_int (pos n)))
                ≡ true)
              one_less share,
        ),
        (last s rest, last-IsLast s rest, positive (last s rest).memory_rss_bytes used, growth),
      )
    where
      positive : (n : ℤ) → ltb_ℤ (pos 0) n ≡ true → pos 0 <ℤ n
      positive n e = ground arith
