-- ===== src/Translation/Template.antt =====
-- Placeholders in templates: strings.ReplaceAll as `interpolate` uses it (i18n/bundle.go).
use Prim.Native.String.{String, [], ◌∷◌, ◌++◌, count}
use Prim.Native.Char.{code}
use Prim.Native.Nat.{ℕ, zero, suc, ◌-◌}
use background_tasks.Base.{◌≡◌, refl, Bool, true, false, ◌&&◌, if◌then◌else◌, ◌==◌, arith}

unfoldable pub starts_with : String → String → Bool
starts_with [] s = true
starts_with (a ∷ p) [] = false
starts_with (a ∷ p) (b ∷ s) = (code a == code b) && starts_with p s

-- Each occurrence of a text that is not empty is replaced, from the left; `skip` characters of the
-- last one are still to be passed over.
unfoldable pub replace_from : ℕ → String → String → String → String
replace_from skip old new [] = []
replace_from (suc n) old new (c ∷ s) = replace_from n old new s
replace_from zero old new (c ∷ s) =
    let passed = replace_from (count old - 1) old new s in
    let rest = replace_from 0 old new s in
    if starts_with old (c ∷ s) then new ++ passed else c ∷ rest

abbrev pub replace_all : String → String → String → String
replace_all old new s = replace_from 0 old new s

-- The text stands nowhere in the other.
unfoldable pub Absent : String → String → Type 0
Absent old [] = Unit
Absent old (c ∷ s) = (starts_with old (c ∷ s) ≡ false) × Absent old s

pub replace_all-Absent : (old new s : String) → Absent old s → replace_all old new s ≡ s
unfolding replace_from Absent
replace_all-Absent old new [] absent = refl
replace_all-Absent old new (c ∷ s) (here, later) =
    ground (arith, here, replace_all-Absent old new s later)
