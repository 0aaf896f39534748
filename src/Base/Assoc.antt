-- ===== src/Base/Assoc.antt =====
-- A Go map with string keys: an association list with one entry for each key.
use mathlib.Core.Path.{◌≡◌, refl}
use mathlib.Core.Option.{Option, none, some}
use mathlib.Core.List.{List, [], ◌∷◌}
use native.Mathlib.Omega.{arith}
use Prim.Native.String.{String}
use text.Mathlib.TextEquality.{eq_iff}
use background_tasks.Base.Tests.{str_eq, if◌then◌else◌}

module _ {ℓ} {V : Type ℓ} where
  unfoldable pub lookup : String → List (String × V) → Option V
  lookup k [] = none
  lookup k ((j, a) ∷ m) = if str_eq j k then some a else lookup k m

  -- m[k] = a
  unfoldable pub insert : String → V → List (String × V) → List (String × V)
  insert k a [] = (k, a) ∷ []
  insert k a ((j, b) ∷ m) = if str_eq j k then (k, a) ∷ m else (j, b) ∷ insert k a m

  -- delete(m, k)
  unfoldable pub delete : String → List (String × V) → List (String × V)
  delete k [] = []
  delete k ((j, b) ∷ m) = let rest = delete k m in if str_eq j k then rest else (j, b) ∷ rest

  pub lookup-insert :
      (k j : String) (a : V) (m : List (String × V))
      → lookup j (insert k a m) ≡ (if str_eq k j then some a else lookup j m)
  unfolding lookup insert
  lookup-insert k j a [] = refl
  lookup-insert k j a ((i, b) ∷ m) =
      ground (arith, eq_iff k j, eq_iff i k, eq_iff i j, lookup-insert k j a m)

  pub lookup-delete :
      (k j : String) (m : List (String × V))
      → lookup j (delete k m) ≡ (if str_eq k j then none else lookup j m)
  unfolding lookup delete
  lookup-delete k j [] = ground arith
  lookup-delete k j ((i, b) ∷ m) =
      ground (arith, eq_iff k j, eq_iff i k, eq_iff i j, lookup-delete k j m)
