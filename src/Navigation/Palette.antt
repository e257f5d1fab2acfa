-- ===== src/Navigation/Palette.antt =====
-- The command palette: frontend/src/components/layout/CommandPalette.tsx, with the state of
-- frontend/src/components/layout/AppShell.tsx that opens it.
pub mod Search
pub mod Bounds
pub mod Leads
pub mod Finds
mod Tests
use agent_os_test.Prelude.{
  ℕ, zero, suc, ◌-◌, min, Bool, true, false, not, Option, none, some, List, [], ◌∷◌, Text,
  text_has_eq, ◌==◌, length, get_elem?, if◌then◌else◌,
}
use agent_os_test.Navigation.{NavItem}
use agent_os_test.Navigation.Palette.Search.{Speech, results}

-- Integers, over the native numbers: `negsuc n` is -(n + 1).
pub data ℤ : Type 0 where
  pos negsuc : ℕ → ℤ

-- `Math.min(i + 1, n - 1)`
abbrev pub down : ℤ → ℕ → ℤ
down i zero = negsuc (elim i [ pos k ↦ 0 | negsuc k ↦ k - 1 ])
down (pos i) (suc n) = pos (min (suc i) n)
down (negsuc zero) (suc n) = pos 0
down (negsuc (suc k)) (suc n) = negsuc k

-- `Math.max(i - 1, 0)`
abbrev pub up : ℤ → ℤ
up (pos i) = pos (i - 1)
up (negsuc k) = pos 0

-- `results[activeIndex]`
abbrev pub element_at {ℓ} : {A : Type ℓ} → List A → ℤ → Option A
element_at xs (pos i) = get_elem? xs i
element_at xs (negsuc k) = none

pub record Shell : Type 0 where
  pub palette_open : Bool
  pub query : Text
  pub active_index : ℤ
  pub location : Text

pub data Key : Type 0 where
  escape arrow_down arrow_up enter other_key : Key

-- What the operator does. An index names one of the shown results.
pub data Event : Type 0 where
  toggle open_palette backdrop : Event
  type_query : Text → Event
  hover choose : ℕ → Event
  press : Key → Event

-- `setPaletteOpen(false)`, and the effect on `open` that resets the palette.
unfoldable pub close_palette : Shell → Shell
close_palette s = record s { palette_open = false; query = []; active_index = pos 0 }

unfoldable pub open_it : Shell → Shell
open_it s = record s { palette_open = true }

-- The shortcut of the shell.
unfoldable pub toggle_palette : Shell → Shell
unfolding close_palette open_it
toggle_palette s = if s.palette_open then close_palette s else open_it s

-- `go`
unfoldable pub go : Text → Shell → Shell
unfolding close_palette
go to s = close_palette (record s { location = to })

-- `setQuery`, and the effect on `query` that resets the index.
unfoldable pub change_query : Text → Shell → Shell
change_query q s = if q == s.query then s else record s { query = q; active_index = pos 0 }

abbrev pub go_to : Option NavItem → Shell → Shell
go_to none s = s
go_to (some item) s = go item.to s

module _ (speech : Speech) where
  abbrev pub shown : Shell → List NavItem
  shown s = results speech s.query

  -- `onKeyDown` of the palette.
  unfoldable pub on_key : Key → Shell → Shell
  unfolding close_palette go
  on_key escape s = close_palette s
  on_key arrow_down s = record s { active_index = down s.active_index (length (shown s)) }
  on_key arrow_up s = record s { active_index = up s.active_index }
  on_key enter s = go_to (element_at (shown s) s.active_index) s
  on_key other_key s = s

  -- A handler of the palette: it is there while the palette is open.
  abbrev if_open : (Shell → Shell) → Shell → Shell
  if_open f s = if s.palette_open then f s else s

  unfoldable pub handle : Event → Shell → Shell
  unfolding on_key close_palette open_it toggle_palette go change_query
  handle toggle s = toggle_palette s
  handle open_palette s = open_it s
  handle backdrop s = if_open close_palette s
  handle (type_query q) s = if_open (change_query q) s
  handle (hover i) s = if_open (λ s. record s { active_index = pos i }) s
  handle (choose i) s = if_open (λ s. go_to (get_elem? (shown s) i) s) s
  handle (press key) s = if_open (on_key key) s
