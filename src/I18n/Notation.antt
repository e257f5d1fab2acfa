-- ===== src/I18n/Notation.antt =====
-- Catalogues as they are written in frontend/src/lib/i18n/locales.
use Prim.Native.String.{String}
use agent_os_test.Prelude.{List, [], ◌∷◌, units}
use agent_os_test.I18n.Catalogue.{Entries, text, group, entry}

-- Properties that hold a text, in front of further properties.
abbrev pub texts : List (String × String) → Entries → Entries
texts [] es = es
texts ((key, s) ∷ more) es = entry (units key) (text (units s)) (texts more es)

-- Properties that hold an object, in front of further properties.
abbrev pub groups : List (String × Entries) → Entries → Entries
groups [] es = es
groups ((key, inner) ∷ more) es = entry (units key) (group inner) (groups more es)
