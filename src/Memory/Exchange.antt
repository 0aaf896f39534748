-- ===== src/Memory/Exchange.antt =====
-- The exchange sort of InMemoryTaskQueue.sortQueue (task_queue.go), over any test `swap`. An index
-- that only moves forward is the suffix that is left, so a round is recursion on it.
use background_tasks.Base.{
  ℕ, zero, suc, ◌-◌, ◌≤◌, ◌≡◌, inl, inr, Bool, true, false, List, [], ◌∷◌, Perm, arith, length, All,
  if◌then◌else◌, Bool-cases,
}
use mathlib.Core.List.Perm

module _ {ℓ} {A : Type ℓ} (swap : A → A → Bool) where
  -- The loop over `j`: `x` is the entry at `i`, which changes places with each `y` that comes first.
  unfoldable pub pass : A → List A → A × List A
  pass x [] = (x, [])
  pass x (y ∷ ys) =
      let (m, rest) = pass (if swap x y then y else x) ys in (m, (if swap x y then x else y) ∷ rest)

  -- The loop over `i`, with the rounds that are left.
  unfoldable pub rounds : ℕ → List A → List A
  unfolding pass
  rounds zero xs = xs
  rounds (suc n) [] = []
  rounds (suc n) (x ∷ xs) = let (m, rest) = pass x xs in m ∷ rounds n rest

  unfoldable pub exchange_sort : List A → List A
  unfolding rounds
  exchange_sort xs = rounds (length xs - 1) xs

  pass-perm : (x : A) (xs : List A) → Perm ((pass x xs).0 ∷ (pass x xs).1) (x ∷ xs)
  unfolding pass
  pass-perm x [] = Perm.rfl
  pass-perm x (y ∷ ys) = elim (Bool-cases (swap x y)) [
    | inl e ↦ rw e (Perm.trans (Perm.swap x _ _) (Perm.cons x (pass-perm y ys)))
    | inr e ↦ rw e (
        Perm.trans (Perm.swap y _ _) (Perm.trans (Perm.cons y (pass-perm x ys)) (Perm.swap x y ys)))
  ]

  rounds-perm : (n : ℕ) (xs : List A) → Perm (rounds n xs) xs
  unfolding rounds
  rounds-perm zero xs = Perm.rfl
  rounds-perm (suc n) [] = Perm.rfl
  rounds-perm (suc n) (x ∷ xs) =
      Perm.trans (Perm.cons (pass x xs).0 (rounds-perm n (pass x xs).1)) (pass-perm x xs)

  -- The sort neither loses nor makes up an entry.
  pub exchange_sort-perm : (xs : List A) → Perm (exchange_sort xs) xs
  unfolding exchange_sort
  exchange_sort-perm xs = rounds-perm (length xs - 1) xs

  module _ {κ} (P : A → Type κ) where
    pass-All : (x : A) (xs : List A) → P x → All P xs → P (pass x xs).0 × All P (pass x xs).1
    unfolding pass
    pass-All x [] px pxs = (px, pxs)
    pass-All x (y ∷ ys) px (py, pys) = elim (Bool-cases (swap x y)) [
      | inl e ↦ rw e (let r = pass-All y ys py pys in (r.0, (px, r.1)))
      | inr e ↦ rw e (let r = pass-All x ys px pys in (r.0, (py, r.1)))
    ]

    rounds-All : (n : ℕ) (xs : List A) → All P xs → All P (rounds n xs)
    unfolding rounds
    rounds-All zero xs h = h
    rounds-All (suc n) [] h = h
    rounds-All (suc n) (x ∷ xs) (px, pxs) =
        let r = pass-All x xs px pxs in (r.0, rounds-All n (pass x xs).1 r.1)

    pub exchange_sort-All : (xs : List A) → All P xs → All P (exchange_sort xs)
    unfolding exchange_sort
    exchange_sort-All xs = rounds-All (length xs - 1) xs

  -- No entry would change places with one behind it.
  abbrev pub IsOrdered : List A → Type 0
  IsOrdered [] = Unit
  IsOrdered (x ∷ xs) = All (λ y. swap x y ≡ false) xs × IsOrdered xs

  -- What the sort needs of its test: it never asks for both orders, and what it leaves alone is
  -- transitive.
  pub record IsStrictWeak : Type ℓ where
    pub asym : (a b : A) → swap a b ≡ true → swap b a ≡ false
    pub trans : (a b c : A) → swap a b ≡ false → swap b c ≡ false → swap a c ≡ false

  module _ (w : IsStrictWeak) where
    pub irrefl : (x : A) → swap x x ≡ false
    irrefl x = elim (Bool-cases (swap x x)) [ inl e ↦ w.asym x x e | inr e ↦ e ]

    -- Of two entries the one that goes on is not behind the one that stays.
    chosen_first : (x y : A) → swap (if swap x y then y else x) (if swap x y then x else y) ≡ false
    chosen_first x y = elim (Bool-cases (swap x y)) [ inl e ↦ rw e (w.asym x y e) | inr e ↦ rw e e ]

    below_both :
        (m x y : A)
        → swap m (if swap x y then y else x) ≡ false
        → swap m (if swap x y then x else y) ≡ false
        → swap m x ≡ false
    below_both m x y h k = ground arith

    pass-least :
        (x : A) (xs : List A)
        → (swap (pass x xs).0 x ≡ false) × All (λ y. swap (pass x xs).0 y ≡ false) (pass x xs).1
    unfolding pass
    pass-least x [] = (irrefl x, tt)
    pass-least x (y ∷ ys) =
        let c : A = if swap x y then y else x in
        let (below, rest) = pass-least c ys in
        let other = w.trans (pass c ys).0 c (if swap x y then x else y) below (chosen_first x y) in
        (below_both (pass c ys).0 x y below other, (other, rest))

    length-pass : (x : A) (xs : List A) → length (pass x xs).1 ≡ length xs
    unfolding pass
    length-pass x [] = omega arith
    length-pass x (y ∷ ys) = omega (arith, length-pass (if swap x y then y else x) ys)

    rounds-IsOrdered : (n : ℕ) (xs : List A) → length xs ≤ suc n → IsOrdered (rounds n xs)
    unfolding rounds
    rounds-IsOrdered zero [] h = tt
    rounds-IsOrdered zero (x ∷ []) h = (tt, tt)
    rounds-IsOrdered zero (x ∷ y ∷ xs) h = absurd (omega arith)
    rounds-IsOrdered (suc n) [] h = tt
    rounds-IsOrdered (suc n) (x ∷ xs) h = (
      rounds-All (λ y. swap (pass x xs).0 y ≡ false) n (pass x xs).1 (pass-least x xs).1,
      rounds-IsOrdered n (pass x xs).1 (omega (arith, length-pass x xs)),
    )

    -- One round fewer than there are entries puts them in order.
    pub exchange_sort-IsOrdered : (xs : List A) → IsOrdered (exchange_sort xs)
    unfolding exchange_sort
    exchange_sort-IsOrdered xs = rounds-IsOrdered (length xs - 1) xs (omega arith)
