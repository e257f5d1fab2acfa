-- ===== src/Navigation/Palette/Leads.antt =====
-- What every sequence of events at the palette of frontend/src/components/layout keeps.
use mathlib.Core.List.{Memᴰ}
use agent_os_test.Prelude.{
  ◌≡◌, refl, ◌<◌, ◌⊎◌, inl, inr, true, false, Option, none, some, [], Text, text_has_eq, ◌==◌,
  length, if_intro, get_elem?, get_elem-Mem,
}
use agent_os_test.Navigation.{NavItem, searchable_nav_items}
use agent_os_test.Navigation.Addresses.{routes_to, navigation-IsAddressed}
use agent_os_test.Navigation.Palette.{
  pos, element_at, Shell, Key, Event, toggle, open_palette, backdrop, type_query, hover, choose,
  press, close_palette, open_it, toggle_palette, go, change_query, go_to, on_key, handle, shown,
  escape, arrow_down, arrow_up, enter, other_key,
}
use agent_os_test.Navigation.Palette.Search.{Speech}
use agent_os_test.Navigation.Palette.Bounds.{
  IsWithin, IsShown, handle-IsWithin, element-some, element-none, element-Mem, results-Mem,
}

abbrev pub initial : Text → Shell
initial at = record { palette_open = false; query = []; active_index = pos 0; location = at }

module _ (speech : Speech) (at : Text) where
  -- The states after a sequence of events on a page that was loaded at an address.
  pub data Reached : Shell → Type 0 where
    start : Reached (initial at)
    after : (e : Event) (s : Shell) → IsShown speech e s → Reached s → Reached (handle speech e s)

  reached-IsWithin : (s : Shell) → Reached s → IsWithin speech s
  reached-IsWithin _ start = record { bounds = inr refl; cleared = λ e. (refl, refl) }
  reached-IsWithin _ (after e s h r) = handle-IsWithin speech e s h (reached-IsWithin s r)

  -- Where results are shown, one of them is highlighted, and the Enter key leads to it and closes
  -- the palette. Where none are shown, the Enter key does nothing.
  abbrev pub HasActive : Shell → Type 0
  HasActive s =
      (0 < length (shown speech s)
        → (item : NavItem) × (element_at (shown speech s) s.active_index ≡ some item)
          × Memᴰ item (shown speech s)
          × (handle speech (press enter) s ≡ go item.to s))
      × (length (shown speech s) ≡ 0 → handle speech (press enter) s ≡ s)

  reached-HasActive : (s : Shell) → Reached s → s.palette_open ≡ true → HasActive s
  unfolding handle on_key
  reached-HasActive s r o = (
    λ many.
        let (item, found, m) =
          element-some (shown speech s) s.active_index (reached-IsWithin s r).bounds many in
        (item, found, m, pressed (some item) found),
    λ none_shown. pressed none (element-none (shown speech s) s.active_index none_shown),
  )
    where
      pressed :
          (found : Option NavItem)
          → element_at (shown speech s) s.active_index ≡ found
          → handle speech (press enter) s ≡ go_to found s
      pressed found e = simp (o, e) refl

  -- After every sequence of events the index is within the shown results, and a closed palette is
  -- as it was at first. While the palette is open, the Enter key leads to the highlighted result,
  -- of which there is one where results are shown.
  pub reached-bounds :
      (s : Shell) → Reached s → IsWithin speech s × (s.palette_open ≡ true → HasActive s)
  reached-bounds s r = (reached-IsWithin s r, reached-HasActive s r)

  -- The address that the page was loaded at, or that of an item of the navigation,
  -- for which exactly one route is declared.
  abbrev pub IsKnown : Text → Type 0
  IsKnown location =
      (location ≡ at)
      ⊎ ((item : NavItem) × Memᴰ item searchable_nav_items
          × (location ≡ item.to)
          × (length (routes_to item) ≡ 1))

  go_to-IsKnown :
      (found : Option NavItem) (s : Shell)
      → ((item : NavItem) → found ≡ some item → Memᴰ item (shown speech s))
      → IsKnown s.location
      → IsKnown (go_to found s).location
  unfolding go close_palette
  go_to-IsKnown none s h k = k
  go_to-IsKnown (some item) s h k =
      let m = results-Mem speech s.query item (h item refl) in
      inr (item, m, refl, (navigation-IsAddressed.0 item m).one_route)

  on_key-IsKnown :
      (key : Key) (s : Shell) → IsKnown s.location → IsKnown (on_key speech key s).location
  unfolding on_key close_palette
  on_key-IsKnown escape s k = k
  on_key-IsKnown arrow_down s k = k
  on_key-IsKnown arrow_up s k = k
  on_key-IsKnown enter s k =
      go_to-IsKnown (element_at (shown speech s) s.active_index) s
        (λ item e. element-Mem (shown speech s) s.active_index item e) k
  on_key-IsKnown other_key s k = k

  abbrev Known : Shell → Type 0
  Known s = IsKnown s.location

  handle-IsKnown : (e : Event) (s : Shell) → Known s → Known (handle speech e s)
  unfolding handle toggle_palette close_palette open_it change_query
  handle-IsKnown toggle s k =
      if_intro Known s.palette_open (close_palette s) (open_it s) (λ _. k) (λ _. k)
  handle-IsKnown open_palette s k = k
  handle-IsKnown backdrop s k = if_intro Known s.palette_open (close_palette s) s (λ _. k) (λ _. k)
  handle-IsKnown (type_query q) s k =
      if_intro Known s.palette_open (change_query q s) s
        (λ _.
          if_intro Known (q == s.query) s (record s { query = q; active_index = pos 0 }) (λ _. k)
            (λ _. k))
        (λ _. k)
  handle-IsKnown (hover i) s k =
      if_intro Known s.palette_open (record s { active_index = pos i }) s (λ _. k) (λ _. k)
  handle-IsKnown (choose i) s k =
      if_intro Known s.palette_open (go_to (get_elem? (shown speech s) i) s) s
        (λ _.
          go_to-IsKnown (get_elem? (shown speech s) i) s
            (λ item e. get_elem-Mem (shown speech s) i item e) k)
        (λ _. k)
  handle-IsKnown (press key) s k =
      if_intro Known s.palette_open (on_key speech key s) s (λ _. on_key-IsKnown key s k) (λ _. k)

  -- After every sequence of events at the palette the page is at the address that it was loaded at
  -- or at that of an item of the navigation, for which exactly one route is declared.
  pub reached-IsKnown : (s : Shell) → Reached s → IsKnown s.location
  reached-IsKnown _ start = inl refl
  reached-IsKnown _ (after e s h r) = handle-IsKnown e s (reached-IsKnown s r)
