-- ===== src/Resources/Monitors/Positions.antt =====
-- The monitors by their positions, and what a write changes (resource_monitor.go).
use background_tasks.Base.{
  ℕ, zero, suc, ◌≡◌, refl, ◌∙◌, true, false, none, some, List, [], ◌∷◌, ◌++◌, length, get_elem?,
  ◌==◌, if◌then◌else◌, arith,
}
use background_tasks.Resources.Monitors.{ProcessMonitor, set_at}

pub get_elem?-set_at :
    {A : Type 0} (i j : ℕ) (a b : A) (xs : List A)
    → get_elem? xs i ≡ some b
    → get_elem? (set_at i a xs) j ≡ (if i == j then some a else get_elem? xs j)
unfolding set_at
get_elem?-set_at i j a b [] e = ground arith
get_elem?-set_at zero zero a b (x ∷ xs) e = ground arith
get_elem?-set_at zero (suc j) a b (x ∷ xs) e = ground arith
get_elem?-set_at (suc i) zero a b (x ∷ xs) e = ground arith
get_elem?-set_at (suc i) (suc j) a b (x ∷ xs) e = ground (arith, get_elem?-set_at i j a b xs e)

pub get_elem?-append :
    {A : Type 0} (xs : List A) (a : A) (j : ℕ)
    → get_elem? (xs ++ a ∷ []) j ≡ (if length xs == j then some a else get_elem? xs j)
get_elem?-append [] a zero = ground arith
get_elem?-append [] a (suc j) = ground arith
get_elem?-append (x ∷ xs) a zero = ground arith
get_elem?-append (x ∷ xs) a (suc j) = ground (arith, get_elem?-append xs a j)

pub get_elem?-length : {A : Type 0} (xs : List A) → get_elem? xs (length xs) ≡ none
get_elem?-length [] = refl
get_elem?-length (x ∷ xs) = get_elem?-length xs

-- The monitor at `i` is written.
module _ (made : List ProcessMonitor) (i : ℕ) (pm pm' : ProcessMonitor)
    (at : get_elem? made i ≡ some pm) where
  pub set_here : (j : ℕ) → (i == j) ≡ true → get_elem? (set_at i pm' made) j ≡ some pm'
  set_here j e = get_elem?-set_at i j pm' pm made at ∙ ground arith

  pub set_there : (j : ℕ) → (i == j) ≡ false → get_elem? (set_at i pm' made) j ≡ get_elem? made j
  set_there j e = get_elem?-set_at i j pm' pm made at ∙ ground arith

  pub same_place : (j : ℕ) → (i == j) ≡ true → i ≡ j
  same_place j e = ground arith

  pub here :
      (j : ℕ)
      → (i == j) ≡ true
      → (p : ProcessMonitor) → get_elem? (set_at i pm' made) j ≡ some p
      → pm' ≡ p
  here j e p h = let at_j = set_here j e in cc

  pub there :
      (j : ℕ) → (i == j) ≡ true → (old : ProcessMonitor) → get_elem? made j ≡ some old → pm ≡ old
  there j e old was = let ij = same_place j e in cc
