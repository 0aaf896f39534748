-- ===== src/Checks/Translation.antt =====
-- Translations: runs, and the theorems at concrete inputs.
use background_tasks.Base.{◌≡◌, refl, none, some, List, [], ◌∷◌, String, lookup}
use background_tasks.Translation.{
  tr, set_translator, BundleValue, template, nested, nothing, BundleTranslator, translate,
  interpolate, TemplateData,
}
use background_tasks.Translation.Template.{replace_from, starts_with}

abbrev entries : List (String × BundleValue)
entries =
    ("greeting", template "hello {{name}}")
    ∷ ("bye", nested (some "good bye"))
    ∷ ("empty", nothing)
    ∷ []

abbrev bundle : BundleTranslator
bundle = record {
  messages = ("greeting", "hello {{name}}") ∷ ("bye", "good bye") ∷ ("empty", "") ∷ [];
}

abbrev age : TemplateData
age = ("age", "7") ∷ []

greets : tr (translate bundle) "greeting" (("name", "Ada") ∷ []) ≡ "hello Ada"
unfolding tr translate interpolate replace_from starts_with lookup
greets = refl

-- A value that holds another placeholder is replaced again if it comes first.
depends_on_order_first : interpolate "{{a}}" (("a", "{{b}}") ∷ ("b", "x") ∷ []) ≡ "x"
unfolding interpolate replace_from starts_with
depends_on_order_first = refl

depends_on_order_last : interpolate "{{a}}" (("b", "x") ∷ ("a", "{{b}}") ∷ []) ≡ "{{b}}"
unfolding interpolate replace_from starts_with
depends_on_order_last = refl

nil_resets : tr (set_translator none) "bye" [] ≡ "bye"
unfolding tr
nil_resets = refl
