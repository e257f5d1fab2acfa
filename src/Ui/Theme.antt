-- ===== src/Ui/Theme.antt =====
-- The theme of the page: frontend/src/lib/theme.tsx. A theme is a text, since what the storage
-- holds is taken as it is. Whether the system prefers dark is an argument.
pub mod Applies
mod Tests
use agent_os_test.Prelude.{
  Bool, true, false, none, some, [], Text, text_has_eq, units, ◌==◌, is_empty, if◌then◌else◌,
}
use agent_os_test.Browser.Storage.{Storage, returned, thrown, get_item, set_item, or_else}

-- `STORAGE_KEY`
abbrev pub theme_key : Text
theme_key = units "agent-os:theme"

abbrev pub dark : Text
dark = units "dark"

abbrev pub light : Text
light = units "light"

abbrev pub system : Text
system = units "system"

-- `resolve`
pub resolve : Bool → Text → Text
resolve prefers_dark theme =
    if theme == system then (if prefers_dark then dark else light) else theme

-- The first value of the state.
pub initial_theme : Storage → Text
initial_theme st = elim (get_item st theme_key) [
  | thrown ↦ dark
  | returned none ↦ dark
  | returned (some stored) ↦ if is_empty stored then dark else stored
]

-- The state of `ThemeProvider`, with the class that its effects have set on the document.
pub record ThemeProvider : Type 0 where
  pub theme : Text
  pub resolved_theme : Text
  pub has_dark_class : Bool
  pub local_storage : Storage

-- A render with a theme, and its first effect.
abbrev pub applied : Bool → Text → Storage → ThemeProvider
applied prefers_dark theme st =
    let shown = resolve prefers_dark theme in
    record {
      theme = theme;
      resolved_theme = shown;
      has_dark_class = shown == dark;
      local_storage = st;
    }

pub mount_theme : Bool → Storage → ThemeProvider
mount_theme prefers_dark st = applied prefers_dark (initial_theme st) st

-- `setTheme`, and the effect behind the render that follows.
pub set_theme : Bool → Text → ThemeProvider → ThemeProvider
set_theme prefers_dark next p =
    applied prefers_dark next (or_else p.local_storage (set_item p.local_storage theme_key next))

-- `onChange`, which listens only under the theme `system`.
pub prefers_changed : Bool → ThemeProvider → ThemeProvider
prefers_changed prefers_dark p =
    if p.theme == system then applied prefers_dark system p.local_storage else p
