-- ===== src/Navigation/Palette/Tests.antt =====
-- The theorems on the palette, with keys for texts and the lower case of ASCII.
use mathlib.Core.List.{Memᴰ}
use agent_os_test.Prelude.{
  ◌≡◌, refl, ◌↔◌, true, some, Text, units, ascii_lower, text_eq, includes, is_empty, ◌||◌, trim,
  trim_start, split, split_on, starts_with, lookup,
}
use agent_os_test.I18n.Catalogue.{lookup_key, child, descend}
use agent_os_test.I18n.Locales.En.{en}
use agent_os_test.Navigation.{NavItem, all_nav_items, searchable_nav_items}
use agent_os_test.Navigation.Palette.{
  Shell, handle, open_palette, type_query, press, arrow_down, enter, on_key, change_query, open_it,
  go, close_palette,
}
use agent_os_test.Navigation.Palette.Search.{Speech, results, is_found, en_labels, english_items}
use agent_os_test.Navigation.Palette.Bounds.{IsWithin}
use agent_os_test.Navigation.Palette.Leads.{
  Reached, start, after, initial, HasActive, IsKnown, reached-bounds, reached-IsKnown,
}
use agent_os_test.Navigation.Palette.Finds.{results-English, sought}

abbrev speech : Speech
speech = record { translated = λ key. key; lower = ascii_lower }

abbrev home : Text
home = units "/"

-- The palette is opened, a query is typed, and the keys are pressed.
abbrev typed : Shell
typed = handle speech (type_query (units " AUDIT")) (handle speech open_palette (initial home))

abbrev entered : Shell
entered = handle speech (press enter) (handle speech (press arrow_down) typed)

typed-Reached : Reached speech home typed
typed-Reached = after _ _ tt (after _ _ tt start)

entered-Reached : Reached speech home entered
entered-Reached = after _ _ tt (after _ _ tt typed-Reached)

led : entered.location ≡ units "/audit"
unfolding handle on_key change_query open_it go close_palette results en_labels english_items
    includes starts_with lookup lookup_key child text_eq split split_on descend trim trim_start
    ascii_lower
led = refl

reached-bounds_example :
    IsWithin speech typed × (typed.palette_open ≡ true → HasActive speech home typed)
reached-bounds_example = reached-bounds speech home typed typed-Reached

reached-IsKnown_example : IsKnown speech home entered.location
reached-IsKnown_example = reached-IsKnown speech home entered entered-Reached

abbrev tasks : NavItem
tasks = record { label_key = units "nav.items.tasks"; to = units "/tasks" }

abbrev query : Text
query = units "Task"

results-English_example :
    (Memᴰ tasks (results speech query) ↔ (
      Memᴰ tasks searchable_nav_items
      × ((is_empty (sought speech query) || is_found speech (sought speech query) tasks) ≡ true)))
    × ((s : Text)
        → Memᴰ tasks all_nav_items
        → lookup_key en tasks.label_key ≡ some s
        → includes (ascii_lower s) (sought speech query) ≡ true
        → Memᴰ tasks (results speech query))
    × (Memᴰ tasks searchable_nav_items
        → includes (ascii_lower tasks.to) (sought speech query) ≡ true
        → Memᴰ tasks (results speech query))
results-English_example = results-English speech query tasks
