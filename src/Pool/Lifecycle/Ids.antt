-- ===== src/Pool/Lifecycle/Ids.antt =====
-- For any workers there is an id that none of them has.
use background_tasks.Base.{
  ℕ, zero, suc, ◌<◌, ◌≡◌, refl, ap, List, [], ◌∷◌, String, arith, str_eq, eq_iff, Bool-cases, inl,
  inr,
}
use background_tasks.Pool.Lifecycle.{WorkerThread, Unused}
use background_tasks.Base.Places.{total}

abbrev size : String → ℕ
size String.[] = 0
size (String.◌∷◌ c s) = suc (size s)

abbrev letters : ℕ → String
letters zero = ""
letters (suc n) = String.◌∷◌ "x" (letters n)

size-letters : (n : ℕ) → size (letters n) ≡ n
size-letters zero = refl
size-letters (suc n) = ap suc (size-letters n)

longer-Unused :
    (n : ℕ) (ws : List WorkerThread) → total (λ w. size w.id) ws < n → Unused (letters n) ws
longer-Unused n [] h = tt
longer-Unused n (w ∷ ws) h = (
  elim (Bool-cases (str_eq w.id (letters n))) [
    | inl same ↦ absurd (omega (arith, ap size ((eq_iff w.id (letters n)).0 same), size-letters n))
    | inr other ↦ other
  ],
  longer-Unused n ws (omega arith),
)

pub new_id : (ws : List WorkerThread) → (id : String) × Unused id ws
new_id ws = let n = suc (total (λ w. size w.id) ws) in (letters n, longer-Unused n ws (omega arith))
