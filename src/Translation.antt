-- ===== src/Translation.antt =====
-- Translations (i18n/translator.go, i18n/bundle.go). A translator is a function of the id of a message
-- and its data; the locale in the context is fixed. The data is a list in the order in which the map
-- gives it, each value as fmt prints it. The texts of the errors are shortened; Tr drops them.
pub mod Template
pub mod Laws
use Prim.Native.String.{◌++◌ as string_append}
use background_tasks.Base.{
  ◌≡◌, Bool, true, false, Option, none, some, List, [], ◌∷◌, String, str_eq, lookup, if◌then◌else◌,
}
use background_tasks.Postgres.{Answer, ok, failed}
use Template.{replace_all}

abbrev pub TemplateData : Type 0
TemplateData = List (String × String)

abbrev pub Translator : Type 0
Translator = String → TemplateData → Answer String

abbrev pub noop_translator : Translator
noop_translator id values = ok id

-- The translator that is installed after SetTranslator; nil is none.
abbrev pub set_translator : Option Translator → Translator
set_translator none = noop_translator
set_translator (some t) = t

unfoldable pub tr : Translator → String → TemplateData → String
tr current msg_id values = elim (current msg_id values) [
  | failed e ↦ msg_id
  | ok out ↦ if str_eq out "" then msg_id else out
]

-- A value of the bundle as the YAML parser gives it: a text, a map with the value of its key "other"
-- if that is a text, nothing, or anything else.
pub data BundleValue : Type 0 where
  template : String → BundleValue
  nested : Option String → BundleValue
  nothing unsupported : BundleValue

pub record BundleTranslator : Type 0 where
  pub messages : List (String × String)

abbrev pub template_of : String → BundleValue → Answer String
template_of id (template s) = ok s
template_of id (nested (some s)) = ok s
template_of id (nested none) =
    failed (string_append "i18n: message id " (string_append id ": nested entry missing"))
template_of id nothing = ok ""
template_of id unsupported =
    failed (string_append "i18n: message id " (string_append id ": unsupported value type"))

abbrev pub add_message :
    String → Answer String → Answer (List (String × String)) → Answer (List (String × String))
add_message id (failed e) later = failed e
add_message id (ok s) (failed e) = failed e
add_message id (ok s) (ok m) = ok ((id, s) ∷ m)

-- The entries of the bundle, one for each id.
unfoldable pub messages_of : List (String × BundleValue) → Answer (List (String × String))
messages_of [] = ok []
messages_of ((id, v) ∷ entries) =
    let later = messages_of entries in add_message id (template_of id v) later

-- After the YAML parser, whose error is passed on.
unfoldable pub new_bundle_translator :
    Answer (List (String × BundleValue)) → Answer BundleTranslator
new_bundle_translator (failed e) = failed (string_append "i18n: parse bundle: " e)
new_bundle_translator (ok entries) = elim (messages_of entries) [
  | failed e ↦ failed e
  | ok m ↦ ok (record { messages = m })
]

abbrev pub placeholder : String → String
placeholder key = string_append "{{" (string_append key "}}")

unfoldable pub interpolate : String → TemplateData → String
interpolate tmpl [] = tmpl
interpolate tmpl ((k, v) ∷ values) = interpolate (replace_all (placeholder k) v tmpl) values

unfoldable pub translate : BundleTranslator → Translator
translate b id values = elim (lookup id b.messages) [
  | none ↦ failed (string_append "i18n: unknown message id " id)
  | some tmpl ↦ ok (interpolate tmpl values)
]
