-- ===== src/I18n/Registry.antt =====
-- frontend/src/lib/i18n/registry.ts. Keys that `LOCALES` only inherits have no definition here:
-- the program asks for the locales of resolved codes.
pub mod Resolves
use agent_os_test.Prelude.{
  Bool, ◌&&◌, not, true, false, Option, none, some, List, [], ◌∷◌, map, Text, text_has_eq, units,
  lookup, filter, trim, split, is_empty, if◌then◌else◌,
}

pub data Direction : Type 0 where
  ltr rtl : Direction

pub record LocaleDefinition : Type 0 where
  pub code : Text
  pub label : Text
  pub native_label : Text
  pub short_label : Text
  pub direction : Direction
  pub intl_locale : Text
  pub enabled : Bool

abbrev pub english : LocaleDefinition
english = record {
  code = units "en";
  label = units "English";
  native_label = units "English";
  short_label = units "EN";
  direction = ltr;
  intl_locale = units "en";
  enabled = true;
}

abbrev pub hindi : LocaleDefinition
hindi = record {
  code = units "hi";
  label = units "Hindi";
  native_label = units "हिंदी";
  short_label = units "हिंदी";
  direction = ltr;
  intl_locale = units "hi-IN";
  enabled = true;
}

-- `LOCALES`
abbrev pub locales : List (Text × LocaleDefinition)
locales = (units "en", english) ∷ (units "hi", hindi) ∷ []

-- `FALLBACK_LOCALE`
abbrev pub fallback_locale : Text
fallback_locale = units "en"

-- `enabledLocales`
pub enabled_locales : List LocaleDefinition
enabled_locales = filter (λ l. l.enabled) (map (λ (_, l). l) locales)

abbrev pub is_enabled : Option LocaleDefinition → Bool
is_enabled none = false
is_enabled (some l) = l.enabled

-- `isSupportedLocale`
pub is_supported_locale : Text → Bool
is_supported_locale code = not (is_empty code) && is_enabled (lookup code locales)

abbrev pub first_part : List Text → Text
first_part [] = []
first_part (part ∷ parts) = part

-- The supported code that a normalised candidate stands for: the candidate, or its primary subtag.
pub match_locale : Text → Text
match_locale normalized =
    if is_supported_locale normalized
    then normalized
    else let base = first_part (split b'-' normalized) in
      if is_supported_locale base then base else fallback_locale

-- `resolveLocale` over `toLowerCase`; `null` and `undefined` are `none`.
pub resolve_locale : (Text → Text) → Option Text → Text
resolve_locale to_lower_case none = fallback_locale
resolve_locale to_lower_case (some candidate) =
    if is_empty candidate then fallback_locale else match_locale (to_lower_case (trim candidate))

abbrev pub or_fallback : Option LocaleDefinition → LocaleDefinition
or_fallback none = english
or_fallback (some l) = l

-- `getLocale`
pub get_locale : Text → LocaleDefinition
get_locale code = or_fallback (lookup code locales)
