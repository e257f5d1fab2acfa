-- ===== src/I18n/Detect/Tests.antt =====
-- The theorems on the page's language, with the lower case of ASCII.
use agent_os_test.Prelude.{◌≡◌, refl, true, some, none, [], ◌∷◌, units, ascii_lower}
use agent_os_test.Browser.Storage.{Storage}
use agent_os_test.I18n.Detect.{Navigator, Provider, mount, set_locale}
use agent_os_test.I18n.Detect.Chooses.{IsTruthful, mount-IsTruthful, mount-set_locale}

abbrev local : Storage
local = record { available = true; fits = λ k v. true; items = [] }

abbrev navigator : Navigator
navigator = record {
  languages = some (units "en-US" ∷ (units "hi-IN" ∷ []));
  language = units "en-US";
}

abbrev page : Provider
page = mount ascii_lower local none

mount-IsTruthful_example :
    IsTruthful ascii_lower (mount ascii_lower local (some navigator))
    × IsTruthful ascii_lower (set_locale ascii_lower (units "hi") page)
mount-IsTruthful_example =
    mount-IsTruthful ascii_lower (λ t h. refl) local (some navigator) (units "hi") page

mount-set_locale_example :
    (mount ascii_lower
      (set_locale ascii_lower (units "hi") page).local_storage
      (some navigator)).locale
    ≡ (set_locale ascii_lower (units "hi") page).locale
unfolding mount
mount-set_locale_example =
    mount-set_locale ascii_lower (λ t h. refl) (units "hi") page (some navigator) (refl, refl)
