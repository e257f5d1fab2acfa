-- ===== src/Navigation/Palette/Search.antt =====
-- What the palette finds: `results` of frontend/src/components/layout/CommandPalette.tsx.
use agent_os_test.Prelude.{
  Bool, ◌||◌, Option, none, some, List, [], ◌∷◌, ◌++◌, Text, text_has_eq, units, includes, trim,
  is_empty, filter, lookup, if◌then◌else◌,
}
use agent_os_test.I18n.Catalogue.{Catalogue, text, group, Entries, end, entry, descend}
use agent_os_test.I18n.Locales.En.{en}
use agent_os_test.Navigation.{NavItem, searchable_nav_items}

-- `t`, and `toLowerCase`.
pub record Speech : Type 0 where
  pub translated : Text → Text
  pub lower : Text → Text

abbrev entries_of : Option Catalogue → Entries
entries_of none = end
entries_of (some (text s)) = end
entries_of (some (group es)) = es

-- `en.nav.items`
unfoldable pub english_items : Entries
english_items = entries_of (descend (some en) (units "nav" ∷ (units "items" ∷ [])))

-- `String(value)`
abbrev string_of : Catalogue → Text
string_of (text s) = s
string_of (group es) = units "[object Object]"

abbrev pub labels_of : (Text → Text) → Entries → List (Text × Text)
labels_of lower end = []
labels_of lower (entry key value es) =
    (units "nav.items." ++ key, lower (string_of value)) ∷ labels_of lower es

abbrev pub or_empty : Option Text → Text
or_empty none = []
or_empty (some s) = s

module _ (speech : Speech) where
  -- `en_labels`
  unfoldable pub en_labels : List (Text × Text)
  en_labels = labels_of speech.lower english_items

  -- Whether the item is found for a query that is not empty.
  abbrev pub is_found : Text → NavItem → Bool
  is_found q item =
      includes (speech.lower (speech.translated item.label_key)) q
      || includes (or_empty (lookup item.label_key en_labels)) q
      || includes (speech.lower item.to) q

  -- `results`
  unfoldable pub results : Text → List NavItem
  unfolding en_labels
  results query =
      let q = speech.lower (trim query) in
      if is_empty q then searchable_nav_items else filter (is_found q) searchable_nav_items
