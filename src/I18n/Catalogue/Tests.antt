-- ===== src/I18n/Catalogue/Tests.antt =====
-- The theorems on texts at catalogues of one text.
use agent_os_test.Prelude.{none, units}
use agent_os_test.I18n.Interpolate.{Inherited}
use agent_os_test.I18n.Catalogue.{Catalogue, text, group, end, entry}

abbrev nothing_inherited : Inherited
nothing_inherited name = none

abbrev hi : Catalogue
hi = group end

abbrev en : Catalogue
en = group (
    entry (units "loading") (text (units "Loading"))
      (entry (units "task_other") (text (units "{count} tasks")) end))
