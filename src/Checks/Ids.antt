-- ===== src/Checks/Ids.antt =====
-- The id of an event at two series of instants.
use background_tasks.Base.{ℕ, ◌+◌, ◌%◌, ◌<◌, ◌≡◌, ◌↔◌, refl, List, [], ◌∷◌}
use background_tasks.Events.Ids.{generate_event_id, generate_event_id_same}

abbrev stamp : List ℕ
stamp = 50 ∷ 48 ∷ 50 ∷ 54 ∷ []

generate_event_id_same_example :
    (generate_event_id stamp (λ j. j) ≡ generate_event_id stamp (λ j. j + 36))
    ↔ (stamp ≡ stamp) × ((j : ℕ) → j < 8 → j % 36 ≡ (j + 36) % 36)
generate_event_id_same_example = generate_event_id_same stamp stamp (λ j. j) (λ j. j + 36) refl
