-- ===== src/I18n/Locales.antt =====
-- The catalogues of frontend/src/lib/i18n/locales, and which of them a language has:
-- frontend/src/lib/i18n/index.tsx.
pub mod En
pub mod Hi
pub mod Translated
mod Tests
use agent_os_test.Prelude.{
  ◌≡◌, refl, ◌⊎◌, inl, inr, Option, none, some, List, [], ◌∷◌, Text, text_has_eq, units, lookup,
}
use agent_os_test.I18n.Catalogue.{Catalogue}
use agent_os_test.I18n.Locales.En.{en}
use agent_os_test.I18n.Locales.Hi.{hi}

-- `CATALOGUES`. What the object inherits has no definition here: the program asks for the codes of
-- its registry.
abbrev pub catalogues : List (Text × Catalogue)
catalogues = (units "en", en) ∷ (units "hi", hi) ∷ []

abbrev pub or_english : Option Catalogue → Catalogue
or_english none = en
or_english (some c) = c

-- `CATALOGUES[locale] ?? en`
unfoldable pub catalogue_of : Text → Catalogue
catalogue_of locale = or_english (lookup locale catalogues)
