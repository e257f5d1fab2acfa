-- ===== src/I18n/Detect.antt =====
-- The language that the page starts with, and the switch: frontend/src/lib/i18n/index.tsx.
pub mod Chooses
mod Tests
use agent_os_test.Prelude.{
  Bool, not, Option, none, some, List, [], ◌∷◌, Text, text_has_eq, units, ◌==◌, is_empty,
  if◌then◌else◌,
}
use agent_os_test.Browser.Storage.{Storage, Attempt, returned, thrown, get_item, set_item, or_else}
use agent_os_test.I18n.Registry.{
  fallback_locale, resolve_locale, LocaleDefinition, Direction, get_locale,
}

-- `STORAGE_KEY`
abbrev pub storage_key : Text
storage_key = units "agent-os:language"

-- `navigator`: its list of languages, where it has one, and its first language.
pub record Navigator : Type 0 where
  pub languages : Option (List Text)
  pub language : Text

-- `navigator.languages ?? [navigator.language]`
abbrev pub candidates : Navigator → List Text
candidates n = elim n.languages [ none ↦ n.language ∷ [] | some ls ↦ ls ]

module _ (to_lower_case : Text → Text) where
  -- The loop over the browser's languages.
  pub first_resolved : List Text → Text
  first_resolved [] = fallback_locale
  first_resolved (candidate ∷ rest) =
      let resolved = resolve_locale to_lower_case (some candidate) in
      let later = first_resolved rest in
      if not (resolved == fallback_locale) then resolved else later

  abbrev pub from_browser : Option Navigator → Text
  from_browser none = fallback_locale
  from_browser (some n) = first_resolved (candidates n)

  -- `detectInitialLocale`
  pub detect_initial_locale : Storage → Option Navigator → Text
  detect_initial_locale st navigator = elim (get_item st storage_key) [
    | thrown ↦ from_browser navigator
    | returned none ↦ from_browser navigator
    | returned (some stored) ↦
        if is_empty stored
        then from_browser navigator
        else resolve_locale to_lower_case (some stored)
  ]

-- `applyDocumentLocale`: the attributes of the document's root.
pub record Root : Type 0 where
  pub lang : Text
  pub dir : Direction

pub apply_document_locale : Text → Root
apply_document_locale code =
    let definition = get_locale code in
    record { lang = definition.code; dir = definition.direction }

-- The state of `I18nProvider`, with what its effect has written to the document.
pub record Provider : Type 0 where
  pub locale : Text
  pub root : Root
  pub local_storage : Storage

module _ (to_lower_case : Text → Text) where
  -- The first render and the effect behind it.
  unfoldable pub mount : Storage → Option Navigator → Provider
  mount st navigator =
      let locale = detect_initial_locale to_lower_case st navigator in
      record { locale = locale; root = apply_document_locale locale; local_storage = st }

  -- `setLocale`, and the effect behind the render that follows.
  unfoldable pub set_locale : Text → Provider → Provider
  set_locale code p =
      let resolved = resolve_locale to_lower_case (some code) in
      record {
        locale = resolved;
        root = apply_document_locale resolved;
        local_storage = or_else p.local_storage (set_item p.local_storage storage_key resolved);
      }
