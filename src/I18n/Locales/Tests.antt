-- ===== src/I18n/Locales/Tests.antt =====
-- The theorems on the catalogues at keys of the program.
use agent_os_test.Prelude.{
  ◌≡◌, refl, true, none, some, [], units, ascii_lower, text_eq, split_on, split,
}
use agent_os_test.Browser.Storage.{Storage}
use agent_os_test.I18n.Interpolate.{Inherited}
use agent_os_test.I18n.Catalogue.{lookup_key, child}
use agent_os_test.I18n.Detect.{mount, set_locale}
use agent_os_test.I18n.Locales.En.{en}
use agent_os_test.I18n.Locales.Hi.{hi}
use agent_os_test.I18n.Locales.Translated.{HasSame, catalogues-HasSame, ShowsOwn, provider-ShowsOwn}

abbrev local : Storage
local = record { available = true; fits = λ k v. true; items = [] }

abbrev nothing_inherited : Inherited
nothing_inherited name = none

found : lookup_key hi (units "common.save") ≡ some (units "सहेजें")
unfolding lookup_key child text_eq split_on split
found = refl

catalogues-HasSame_example :
    HasSame en hi (units "common.save") × HasSame hi en (units "common.save")
catalogues-HasSame_example = catalogues-HasSame (units "common.save")

provider-ShowsOwn_example :
    ShowsOwn nothing_inherited (mount ascii_lower local none).locale
    × ShowsOwn nothing_inherited
        (set_locale ascii_lower (units "hi-IN") (mount ascii_lower local none)).locale
provider-ShowsOwn_example =
    provider-ShowsOwn nothing_inherited ascii_lower local none (units "hi-IN")
      (mount ascii_lower local none)
