-- ===== src/Translation/Laws.antt =====
-- What Tr shows (i18n/translator.go, i18n/bundle.go).
use package.text.Mathlib.TextEquality.{eq_iff}
use background_tasks.Base.{
  ◌≡◌, ◌≢◌, refl, sym, ◌∙◌, ap, inl, inr, true, false, Option, none, some, List, [], ◌∷◌, String,
  str_eq, lookup, if◌then◌else◌, arith, Option-cases, Bool-cases, All, subst,
}
use background_tasks.Postgres.{Answer, ok, failed, Answer-cases}
use background_tasks.Translation.{
  Translator, TemplateData, tr, BundleValue, template, nested, nothing, unsupported,
  BundleTranslator, template_of, add_message, messages_of, new_bundle_translator, interpolate,
  placeholder, translate,
}
use background_tasks.Translation.Template.{Absent, replace_all-Absent}

-- Whatever the translator does, Tr shows a text that is not empty for an id that is not.
pub tr_never_empty :
    (current : Translator) (id : String) (values : TemplateData)
    → id ≢ ""
    → tr current id values ≢ ""
unfolding tr
tr_never_empty current id values named empty = elim (Answer-cases (current id values)) [
  | inl (out, e) ↦ elim (Bool-cases (str_eq out "")) [
    | inl none_left ↦ named (sym (shows_id out e none_left) ∙ empty)
    | inr some_left ↦ not_empty out some_left (sym (shows_out out e some_left) ∙ empty)
  ]
  | inr (msg, e) ↦ named (sym (shows_failed msg e) ∙ empty)
]
  where
    shows_id :
        (out : String)
        → current id values ≡ ok out
        → str_eq out "" ≡ true
        → tr current id values ≡ id
    shows_id out e none_left = simp (e, tr, none_left)

    shows_out :
        (out : String)
        → current id values ≡ ok out
        → str_eq out "" ≡ false
        → tr current id values ≡ out
    shows_out out e some_left = simp (e, tr, some_left)

    not_empty : (out : String) → str_eq out "" ≡ false → out ≡ "" → ⊥
    not_empty out some_left e = ground (arith, eq_iff out "")

    shows_failed : (msg : String) → current id values ≡ failed msg → tr current id values ≡ id
    shows_failed msg e = simp (e, tr)

-- The template of a value of the bundle.
abbrev pub template_in : Option BundleValue → Option String
template_in none = none
template_in (some (template s)) = some s
template_in (some (nested other)) = other
template_in (some nothing) = some ""
template_in (some unsupported) = none

added :
    (id : String) (a : Answer String) (later : Answer (List (String × String)))
    (m : List (String × String))
    → add_message id a later ≡ ok m
    → (s : String) × (m' : List (String × String)) × (a ≡ ok s)
      × (later ≡ ok m')
      × (((id, s) ∷ m') ≡ m)
added id (failed e) later m h = absurd (ground arith)
added id (ok s) (failed e) m h = absurd (ground arith)
added id (ok s) (ok m') m h = (s, m', refl, refl, cc)

template_found :
    (id : String) (v : BundleValue) (s : String)
    → template_of id v ≡ ok s
    → template_in (some v) ≡ some s
template_found id (template t) s h = cc
template_found id (nested (some t)) s h = cc
template_found id (nested none) s h = absurd (ground arith)
template_found id nothing s h = cc
template_found id unsupported s h = absurd (ground arith)

messages_of-lookup :
    (entries : List (String × BundleValue)) (m : List (String × String)) (id : String)
    → messages_of entries ≡ ok m
    → lookup id m ≡ template_in (lookup id entries)
unfolding messages_of lookup
messages_of-lookup [] m id h = let same : [] ≡ m = cc in subst (λ x. lookup id x ≡ none) same refl
messages_of-lookup ((j, v) ∷ entries) m id h =
    let (s, m', found, later, same) = added j (template_of j v) (messages_of entries) m h in
    let rest = messages_of-lookup entries m' id later in
    let here = template_found j v s found in
    subst (λ x. lookup id x ≡ template_in (if str_eq j id then some v else lookup id entries)) same
      (elim (Bool-cases (str_eq j id)) [ inl e ↦ rw e (sym here) | inr e ↦ rw e rest ])

-- An id without a template, or with an empty one, is shown itself.
abbrev pub shown : String → Option String → String
shown id none = id
shown id (some s) = if str_eq s "" then id else s

-- No placeholder of the values stands in the template.
abbrev pub HasNone : Option String → TemplateData → Type 0
HasNone none values = Unit
HasNone (some s) values = All (λ v. Absent (placeholder v.0) s) values

interpolate-untouched :
    (s : String) (values : TemplateData)
    → All (λ v. Absent (placeholder v.0) s) values
    → interpolate s values ≡ s
unfolding interpolate
interpolate-untouched s [] absent = refl
interpolate-untouched s ((k, v) ∷ values) (here, later) =
    ap (λ t. interpolate t values) (replace_all-Absent (placeholder k) v s here)
    ∙ interpolate-untouched s values later

bundle_messages :
    (entries : List (String × BundleValue)) (b : BundleTranslator)
    → new_bundle_translator (ok entries) ≡ ok b
    → messages_of entries ≡ ok b.messages
unfolding new_bundle_translator
bundle_messages entries b h = elim (Answer-cases (messages_of entries)) [
  | inl (m, e) ↦ e ∙ ap ok (ap (λ t. t.messages) (same_bundle m (sym (from_messages m e) ∙ h)))
  | inr (msg, e) ↦ absurd (not_loaded (sym (from_failure msg e) ∙ h))
]
  where
    same_bundle :
        (m : List (String × String))
        → ok (record { messages = m }) ≡ ok b
        → record { messages = m } ≡ b
    same_bundle m e = cc

    from_messages :
        (m : List (String × String))
        → messages_of entries ≡ ok m
        → new_bundle_translator (ok entries) ≡ ok (record { messages = m })
    from_messages m e = rw (e, new_bundle_translator) refl

    from_failure :
        (msg : String)
        → messages_of entries ≡ failed msg
        → new_bundle_translator (ok entries) ≡ failed msg
    from_failure msg e = rw (e, new_bundle_translator) refl

    not_loaded : {msg : String} → failed msg ≡ ok b → ⊥
    not_loaded e = ground arith

tr_unknown :
    (b : BundleTranslator) (id : String) (values : TemplateData)
    → lookup id b.messages ≡ none
    → tr (translate b) id values ≡ id
unfolding tr translate
tr_unknown b id values e = rw (e, tr, translate) refl

tr_found :
    (b : BundleTranslator) (id : String) (values : TemplateData) (s : String)
    → lookup id b.messages ≡ some s
    → HasNone (some s) values
    → tr (translate b) id values ≡ shown id (some s)
unfolding tr translate
tr_found b id values s e untouched =
    rw (e, tr, translate)
      (ap (λ t. if str_eq t "" then id else t) (interpolate-untouched s values untouched))

-- With a bundle that could be loaded, Tr shows the template of the id as it is written, if none of
-- the placeholders given stands in it, and the id itself if the bundle has no text for it.
pub tr_bundle :
    (entries : List (String × BundleValue)) (b : BundleTranslator) (id : String)
    (values : TemplateData)
    → new_bundle_translator (ok entries) ≡ ok b
    → HasNone (template_in (lookup id entries)) values
    → tr (translate b) id values ≡ shown id (template_in (lookup id entries))
tr_bundle entries b id values loaded untouched =
    let found = messages_of-lookup entries b.messages id (bundle_messages entries b loaded) in
    elim (Option-cases (template_in (lookup id entries))) [
      | inl e ↦ tr_unknown b id values (found ∙ e) ∙ ap (shown id) (sym e)
      | inr (s, e) ↦
          tr_found b id values s (found ∙ e) (subst (λ o. HasNone o values) e untouched)
          ∙ ap (shown id) (sym e)
    ]
