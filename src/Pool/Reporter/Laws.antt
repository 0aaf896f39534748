-- ===== src/Pool/Reporter/Laws.antt =====
-- What a log entry of the pool's reporter holds (worker_pool.go).
use background_tasks.Base.{
  ℕ, ◌≡◌, refl, ◌∙◌, Option, none, some, List, [], ◌∷◌, String, lookup, insert, lookup-insert,
  str_eq, if◌then◌else◌, arith,
}
use background_tasks.EventData.{Value, text, other, Data}
use background_tasks.Pool.Reporter.{add_fields, log_data}

-- The last field with the name `k`.
pub last_field : String → List (String × ℕ) → Option ℕ
last_field k [] = none
last_field k ((j, n) ∷ fields) =
    let later = last_field k fields in
    elim later [ some m ↦ some m | none ↦ if str_eq j k then some n else none ]

abbrev pub over : Option ℕ → Option Value → Option Value
over none old = old
over (some n) old = some (other n)

add_fields-lookup :
    (k : String) (d : Data) (fields : List (String × ℕ))
    → lookup k (add_fields d fields) ≡ over (last_field k fields) (lookup k d)
unfolding add_fields last_field
add_fields-lookup k d [] = refl
add_fields-lookup k d ((j, n) ∷ fields) =
    ground (arith, add_fields-lookup k (insert j (other n) d) fields, lookup-insert j k (other n) d)

-- The entry under each name in the data that ReportLog stores: a field of that name if there is one,
-- also when the name is "level" or "message", and else the level, the message or nothing.
pub log_data-lookup :
    (level message : String) (fields : List (String × ℕ)) (k : String)
    → lookup k (log_data level message fields)
      ≡ over (last_field k fields) (
          if str_eq "level" k
          then some (text level)
          else if str_eq "message" k
          then some (text message)
          else none)
log_data-lookup level message fields k =
    add_fields-lookup k (("level", text level) ∷ ("message", text message) ∷ []) fields
    ∙ unfold lookup in refl
