-- ===== src/Events/Ids.antt =====
-- The ids of events (generateEventID and randomEventString in events.go), as their bytes. The stamp
-- is what time.Format gives, whose width the layout fixes; a reading of UnixNano is not negative.
use background_tasks.Base.{
  ℕ, zero, suc, ◌+◌, ◌-◌, ◌%◌, ◌<◌, ◌≤◌, ◌≡◌, subst, ◌↔◌, refl, List, [], ◌∷◌, ◌++◌, length, ltb,
  if◌then◌else◌, arith, inl, inr, Bool-cases,
}

-- letters[k]: the letters a to z, then the digits.
abbrev pub letter_at : ℕ → ℕ
letter_at k = if ltb k 26 then 97 + k else 48 + (k - 26)

-- The loop from its round `i` on, `n` rounds long; `nanos i` is the clock in the round `i`.
unfoldable pub random_from : (ℕ → ℕ) → ℕ → ℕ → List ℕ
random_from nanos i zero = []
random_from nanos i (suc n) = letter_at (nanos i % 36) ∷ random_from nanos (suc i) n

abbrev pub random_event_string : (ℕ → ℕ) → ℕ → List ℕ
random_event_string nanos n = random_from nanos 0 n

abbrev pub generate_event_id : List ℕ → (ℕ → ℕ) → List ℕ
generate_event_id stamp nanos = stamp ++ 45 ∷ random_event_string nanos 8

cons_parts : {x y : ℕ} {xs ys : List ℕ} → x ∷ xs ≡ y ∷ ys → (x ≡ y) × (xs ≡ ys)
cons_parts e = (cc, cc)

append_parts :
    (xs ys zs ws : List ℕ) → length xs ≡ length ys → xs ++ zs ≡ ys ++ ws → (xs ≡ ys) × (zs ≡ ws)
append_parts [] [] zs ws h e = (refl, e)
append_parts [] (y ∷ ys) zs ws h e = absurd (omega arith)
append_parts (x ∷ xs) [] zs ws h e = absurd (omega arith)
append_parts (x ∷ xs) (y ∷ ys) zs ws h e =
    let (same, rest) = cons_parts e in
    let (front, back) = append_parts xs ys zs ws (omega arith) rest in (cc, back)

letter_injective : (a b : ℕ) → a < 36 → b < 36 → letter_at a ≡ letter_at b → a ≡ b
letter_injective a b h k e = ground arith

random_from-same :
    (nanos nanos' : ℕ → ℕ) (i n : ℕ)
    → random_from nanos i n ≡ random_from nanos' i n
    → (j : ℕ) → i ≤ j
    → j < i + n
    → nanos j % 36 ≡ nanos' j % 36
unfolding random_from
random_from-same nanos nanos' i zero e j from below = absurd (omega arith)
random_from-same nanos nanos' i (suc n) e j from below = elim (Bool-cases (ltb i j)) [
  | inl later ↦
      random_from-same nanos nanos' (suc i) n (cons_parts e).1 j (ground arith) (omega arith)
  | inr here ↦
      let is_first : i ≡ j = ground arith in
      subst (λ k. nanos k % 36 ≡ nanos' k % 36) is_first
        (letter_injective _ _ (omega arith) (omega arith) (cons_parts e).0)
]

same-random_from :
    (nanos nanos' : ℕ → ℕ) (i n : ℕ)
    → ((j : ℕ) → i ≤ j → j < i + n → nanos j % 36 ≡ nanos' j % 36)
    → random_from nanos i n ≡ random_from nanos' i n
unfolding random_from
same-random_from nanos nanos' i zero agree = refl
same-random_from nanos nanos' i (suc n) agree =
    let rest =
      same-random_from nanos nanos' (suc i) n
        (λ j from below. agree j (omega arith) (omega arith)) in
    let first : nanos i % 36 ≡ nanos' i % 36 = agree i (omega arith) (omega arith) in
    rw (first, rest) refl

-- Two ids whose stamps have one width are the same exactly if the stamps are, and if the clock shows
-- the same nanosecond up to a multiple of 36 in each of the eight rounds. So it is the clock alone
-- that tells two events apart: made at the same instants, they have one id.
pub generate_event_id_same :
    (stamp stamp' : List ℕ) (nanos nanos' : ℕ → ℕ)
    → length stamp ≡ length stamp'
    → (generate_event_id stamp nanos ≡ generate_event_id stamp' nanos')
      ↔ (stamp ≡ stamp') × ((j : ℕ) → j < 8 → nanos j % 36 ≡ nanos' j % 36)
generate_event_id_same stamp stamp' nanos nanos' wide = (
  λ e.
      let (front, back) = append_parts stamp stamp' _ _ wide e in
      (
        front,
        λ j below. random_from-same nanos nanos' 0 8 (cons_parts back).1 j (omega arith) below,
      ),
  λ p. rw (p.0, same-random_from nanos nanos' 0 8 (λ j from below. p.1 j below)) refl,
)
