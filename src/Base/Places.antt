-- ===== src/Base/Places.antt =====
-- One entry of a list is replaced or leaves it: how the entries add up behind that.
use Prim.Native.Nat.{ℕ, suc, ◌+◌}
use mathlib.Core.Path.{◌≡◌}
use mathlib.Core.List.{List, [], ◌∷◌}
use native.Mathlib.Omega.{arith}
use background_tasks.Base.Lists.{length}

module _ {A : Type 0} where
  pub data Replace (x x' : A) : List A → List A → Type 0 where
    here : {xs : List A} → Replace x x' (x ∷ xs) (x' ∷ xs)
    there : {y : A} {xs xs' : List A} → Replace x x' xs xs' → Replace x x' (y ∷ xs) (y ∷ xs')

  pub data Remove (x : A) : List A → List A → Type 0 where
    first : {xs : List A} → Remove x (x ∷ xs) xs
    later : {y : A} {xs xs' : List A} → Remove x xs xs' → Remove x (y ∷ xs) (y ∷ xs')

  abbrev pub total : (A → ℕ) → List A → ℕ
  total f [] = 0
  total f (x ∷ xs) = f x + total f xs

  pub total-Replace :
      (f : A → ℕ) {x x' : A} {xs xs' : List A}
      → Replace x x' xs xs'
      → total f xs' + f x ≡ total f xs + f x'
  total-Replace f here = omega arith
  total-Replace f (there r) = omega (arith, total-Replace f r)

  pub total-Remove :
      (f : A → ℕ) {x : A} {xs xs' : List A} → Remove x xs xs' → f x + total f xs' ≡ total f xs
  total-Remove f first = omega arith
  total-Remove f (later r) = omega (arith, total-Remove f r)

  pub length-Replace : {x x' : A} {xs xs' : List A} → Replace x x' xs xs' → length xs' ≡ length xs
  length-Replace here = omega arith
  length-Replace (there r) = omega (arith, length-Replace r)

  pub length-Remove : {x : A} {xs xs' : List A} → Remove x xs xs' → suc (length xs') ≡ length xs
  length-Remove first = omega arith
  length-Remove (later r) = omega (arith, length-Remove r)
