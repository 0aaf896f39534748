-- ===== src/Memory/Ids.antt =====
-- The ids that Enqueue makes (task_queue.go): two counters give two ids, whatever the clock says.
use Prim.Native.Char.{code}
use Prim.Native.String.{◌++◌ as string_append}
use text.Mathlib.TextLemmas.{append_cancel_left, nil-append, cons-append}
use background_tasks.Base.{
  ℕ, zero, suc, ◌+◌, ◌-◌, ◌*◌, ◌/◌, ◌%◌, ◌^◌, ◌≡◌, ◌≢◌, ◌<◌, refl, sym, ap, ◌∙◌, String, List, [],
  ◌∷◌, ◌++◌, arith, All, false, ltb, ◌≤◌, if◌then◌else◌, Bool-cases, inl, inr, u64, decimal, ◌==◌,
}
use background_tasks.Base.Decimal.{digit, decimal_fuel}
use background_tasks.Memory.{auto_id, assign_id}

-- The bytes of an id, which is ASCII.
codes : String → List ℕ
codes String.[] = []
codes (String.◌∷◌ c s) = code c ∷ codes s

codes-append : (s t : String) → codes (string_append s t) ≡ codes s ++ codes t
unfolding codes
codes-append String.[] t = rw (nil-append t)
codes-append (String.◌∷◌ c s) t = rw (cons-append c s t) (ap (◌∷◌ (code c)) (codes-append s t))

number_from : ℕ → List ℕ → ℕ
number_from acc [] = acc
number_from acc (c ∷ cs) = number_from (acc * 10 + (c - 48)) cs

number_from-append :
    (acc : ℕ) (xs ys : List ℕ) → number_from acc (xs ++ ys) ≡ number_from (number_from acc xs) ys
unfolding number_from
number_from-append acc [] ys = refl
number_from-append acc (x ∷ xs) ys = number_from-append (acc * 10 + (x - 48)) xs ys

codes-digit : (d : ℕ) → d < 10 → codes (digit d) ≡ (48 + d) ∷ []
unfolding codes
codes-digit zero h = refl
codes-digit (suc zero) h = refl
codes-digit (suc (suc zero)) h = refl
codes-digit (suc (suc (suc zero))) h = refl
codes-digit (suc (suc (suc (suc zero)))) h = refl
codes-digit (suc (suc (suc (suc (suc zero))))) h = refl
codes-digit (suc (suc (suc (suc (suc (suc zero)))))) h = refl
codes-digit (suc (suc (suc (suc (suc (suc (suc zero))))))) h = refl
codes-digit (suc (suc (suc (suc (suc (suc (suc (suc zero)))))))) h = refl
codes-digit (suc (suc (suc (suc (suc (suc (suc (suc (suc zero))))))))) h = refl
codes-digit (suc (suc (suc (suc (suc (suc (suc (suc (suc (suc d)))))))))) h = absurd (omega arith)

decimal_codes : ℕ → ℕ → List ℕ
decimal_codes f n = codes (decimal_fuel f n)

-- The last digit stands behind the others.
decimal_codes_step :
    (f n : ℕ)
    → decimal_codes (suc f) n
      ≡ (if ltb n 10 then (48 + n) ∷ [] else decimal_codes f (n / 10) ++ (48 + n % 10) ∷ [])
unfolding decimal_codes decimal_fuel
decimal_codes_step f n = elim (Bool-cases (ltb n 10)) [
  | inl e ↦ rw e (codes-digit n (ground arith))
  | inr e ↦ rw e (
      codes-append (decimal_fuel f (n / 10)) (digit (n % 10))
      ∙ ap (◌++◌ (codes (decimal_fuel f (n / 10)))) (codes-digit (n % 10) (omega arith)))
]

abbrev NoDash : List ℕ → Type 0
NoDash = All λ c. (45 == c) ≡ false

NoDash-append : (xs ys : List ℕ) → NoDash xs → NoDash ys → NoDash (xs ++ ys)
NoDash-append [] ys h k = k
NoDash-append (x ∷ xs) ys (h, hs) k = (h, NoDash-append xs ys hs k)

decimal-NoDash : (f n : ℕ) → NoDash (decimal_codes f n)
decimal-NoDash zero n = unfold decimal_codes codes decimal_fuel in tt
decimal-NoDash (suc f) n = rw (decimal_codes_step f n) (elim (Bool-cases (ltb n 10)) [
  | inl e ↦ rw e (ground arith, tt)
  | inr e ↦ rw e (NoDash-append _ _ (decimal-NoDash f (n / 10)) (ground arith, tt))
])

-- Enough fuel prints every digit.
number-decimal : (f n : ℕ) → n < f → number_from 0 (decimal_codes f n) ≡ n
number-decimal zero n h = absurd (omega arith)
number-decimal (suc f) n h = rw (decimal_codes_step f n) (elim (Bool-cases (ltb n 10)) [
  | inl e ↦ rw e (unfold number_from in omega arith)
  | inr e ↦
      let more : 10 ≤ n = ground arith in
      rw
        (
          e,
          number_from-append 0 (decimal_codes f (n / 10)) ((48 + n % 10) ∷ []),
          number-decimal f (n / 10) (omega arith),
        )
        (last n)
])
  where
    last : (k : ℕ) → number_from (k / 10) ((48 + k % 10) ∷ []) ≡ k
    last k = unfold number_from in omega arith

before_dash : List ℕ → List ℕ
before_dash [] = []
before_dash (c ∷ cs) = if 45 == c then [] else c ∷ before_dash cs

after_dash : List ℕ → List ℕ
after_dash [] = []
after_dash (c ∷ cs) = if 45 == c then cs else after_dash cs

split_dash :
    (xs ys : List ℕ)
    → NoDash xs
    → (before_dash (xs ++ 45 ∷ ys) ≡ xs) × (after_dash (xs ++ 45 ∷ ys) ≡ ys)
unfolding before_dash after_dash
split_dash [] ys h = (refl, refl)
split_dash (x ∷ xs) ys (h, hs) = let (b, a) = split_dash xs ys hs in (rw h (ap (◌∷◌ x) b), rw h a)

codes-dash : (s : String) → codes (string_append "-" s) ≡ 45 ∷ codes s
codes-dash s = codes-append "-" s ∙ (unfold codes in refl)

id_codes :
    (stamp counter : ℕ)
    → codes (string_append (decimal stamp) (string_append "-" (decimal counter)))
      ≡ decimal_codes (suc stamp) stamp ++ 45 ∷ decimal_codes (suc counter) counter
unfolding decimal decimal_codes
id_codes stamp counter =
    codes-append (decimal_fuel (suc stamp) stamp) _
    ∙ ap (◌++◌ (codes (decimal_fuel (suc stamp) stamp)))
        (codes-dash (decimal_fuel (suc counter) counter))

-- An id shows the clock reading and the counter that it was made of.
pub auto_id_injective : (s c s' c' : ℕ) → auto_id s c ≡ auto_id s' c' → (s ≡ s') × (c ≡ c')
unfolding auto_id
auto_id_injective s c s' c' e = (
  sym (number-decimal (suc s) s (omega arith))
      ∙ ap (number_from 0) same_front
      ∙ number-decimal (suc s') s' (omega arith),
  sym (number-decimal (suc c) c (omega arith))
      ∙ ap (number_from 0) same_back
      ∙ number-decimal (suc c') c' (omega arith),
)
  where
    same_codes :
        decimal_codes (suc s) s ++ 45 ∷ decimal_codes (suc c) c
        ≡ decimal_codes (suc s') s' ++ 45 ∷ decimal_codes (suc c') c'
    same_codes = sym (id_codes s c) ∙ ap codes (append_cancel_left "task-" _ _ e) ∙ id_codes s' c'

    split :
        (n k : ℕ)
        → (before_dash (decimal_codes (suc n) n ++ 45 ∷ decimal_codes (suc k) k)
            ≡ decimal_codes (suc n) n)
          × (after_dash (decimal_codes (suc n) n ++ 45 ∷ decimal_codes (suc k) k)
              ≡ decimal_codes (suc k) k)
    split n k = split_dash (decimal_codes (suc n) n) _ (decimal-NoDash (suc n) n)

    same_front : decimal_codes (suc s) s ≡ decimal_codes (suc s') s'
    same_front = sym (split s c).0 ∙ ap before_dash same_codes ∙ (split s' c').0

    same_back : decimal_codes (suc c) c ≡ decimal_codes (suc c') c'
    same_back = sym (split s c).1 ∙ ap after_dash same_codes ∙ (split s' c').1

-- A number and a dash in front of a text can be read back.
pub decimal_dash_injective :
    (s s' : ℕ) (r r' : String)
    → string_append (decimal s) (string_append "-" r)
      ≡ string_append (decimal s') (string_append "-" r')
    → s ≡ s'
unfolding decimal decimal_codes
decimal_dash_injective s s' r r' e =
    sym (number-decimal (suc s) s (omega arith))
    ∙ ap (number_from 0) (sym (front s r) ∙ ap (λ t. before_dash (codes t)) e ∙ front s' r')
    ∙ number-decimal (suc s') s' (omega arith)
  where
    front :
        (n : ℕ) (t : String)
        → before_dash (codes (string_append (decimal n) (string_append "-" t)))
          ≡ decimal_codes (suc n) n
    front n t =
        ap before_dash (
          codes-append (decimal_fuel (suc n) n) (string_append "-" t)
          ∙ ap (◌++◌ (decimal_codes (suc n) n)) (codes-dash t))
        ∙ (split_dash (decimal_codes (suc n) n) (codes t) (decimal-NoDash (suc n) n)).0

-- Two tasks that come with no id get two ids, also in one tick of the clock, as long as the
-- uint64 counter has not gone round between them.
pub assign_id_distinct :
    (stamp stamp' counter counter' : ℕ)
    → counter < counter'
    → counter' + 1 < 2 ^ 64
    → (assign_id "" counter stamp).0 ≢ (assign_id "" counter' stamp').0
assign_id_distinct stamp stamp' counter counter' h k e =
    let same = (auto_id_injective stamp (u64 (counter + 1)) stamp' (u64 (counter' + 1)) e).1 in
    absurd (omega (arith, same))
