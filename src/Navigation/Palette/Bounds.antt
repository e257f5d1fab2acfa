-- ===== src/Navigation/Palette/Bounds.antt =====
-- The highlighted result of the palette, and where the palette leads.
use mathlib.Core.List.{Memᴰ}
use agent_os_test.Prelude.{
  ◌≡◌, refl, ◌<◌, ◌⊎◌, inl, inr, ℕ, zero, suc, true, false, Option, none, some, List, [], ◌∷◌, Text,
  text_has_eq, ◌==◌, length, is_empty, trim, Bool-cases, none_elim, arith, if◌then◌else◌, if_intro,
  Mem_filter, get_elem?, get_elem-some, get_elem-Mem,
}
use agent_os_test.Navigation.{NavItem, searchable_nav_items}
use agent_os_test.Navigation.Palette.{
  ℤ, pos, negsuc, down, up, element_at, Shell, Key, Event, toggle, open_palette, backdrop,
  type_query, hover, choose, press, close_palette, open_it, toggle_palette, go, change_query, go_to,
  on_key, handle, shown, escape, arrow_down, arrow_up, enter, other_key,
}
use agent_os_test.Navigation.Palette.Search.{Speech, results, is_found}

-- An index of one of `n` results, or 0; with no results it may be -1.
abbrev pub InBounds : ℤ → ℕ → Type 0
InBounds (pos i) n = (i < n) ⊎ (i ≡ 0)
InBounds (negsuc k) n = (k ≡ 0) × (n ≡ 0)

down-InBounds : (i : ℤ) (n : ℕ) → InBounds i n → InBounds (down i n) n
down-InBounds (pos i) zero h = (refl, refl)
down-InBounds (pos i) (suc n) h = ground arith
down-InBounds (negsuc k) zero (e, h) = ground arith
down-InBounds (negsuc zero) (suc n) h = inr refl
down-InBounds (negsuc (suc k)) (suc n) (e, h) = absurd (omega arith)

up-InBounds : (i : ℤ) (n : ℕ) → InBounds i n → InBounds (up i) n
up-InBounds (pos i) n h = ground arith
up-InBounds (negsuc k) n h = inr refl

pub results-Mem :
    (speech : Speech) (query : Text) (item : NavItem)
    → Memᴰ item (results speech query)
    → Memᴰ item searchable_nav_items
unfolding results
results-Mem speech query item m = elim (Bool-cases (is_empty (speech.lower (trim query)))) [
  | inl all ↦ rw all at m
  | inr some_of ↦
      ((Mem_filter (is_found speech (speech.lower (trim query))) searchable_nav_items item).0
        (rw some_of at m)).0
]

pub element-Mem : (xs : List NavItem) (i : ℤ) (x : NavItem) → element_at xs i ≡ some x → Memᴰ x xs
element-Mem xs (pos i) x e = get_elem-Mem xs i x e
element-Mem xs (negsuc k) x e = none_elim e

pub element-none : (xs : List NavItem) (i : ℤ) → length xs ≡ 0 → element_at xs i ≡ none
element-none [] (pos i) h = refl
element-none (x ∷ xs) i h = absurd (omega arith)
element-none [] (negsuc k) h = refl

pub element-some :
    (xs : List NavItem) (i : ℤ)
    → InBounds i (length xs)
    → 0 < length xs
    → (x : NavItem) × (element_at xs i ≡ some x) × Memᴰ x xs
element-some xs (pos i) (inl h) n = get_elem-some xs i h
element-some xs (pos i) (inr e) n = get_elem-some xs i (omega arith)
element-some xs (negsuc k) (e, h) n = absurd (omega arith)

module _ (speech : Speech) where
  -- The index is that of a shown result, and a closed palette is as it was at first.
  pub record IsWithin (s : Shell) : Type 0 where
    pub bounds : InBounds s.active_index (length (shown speech s))
    pub cleared : s.palette_open ≡ false → (s.query ≡ []) × (s.active_index ≡ pos 0)

  -- An index that an event names is that of a shown result: the event comes from its button.
  abbrev pub IsShown : Event → Shell → Type 0
  IsShown (hover i) s = i < length (shown speech s)
  IsShown (choose i) s = i < length (shown speech s)
  IsShown toggle s = Unit
  IsShown open_palette s = Unit
  IsShown backdrop s = Unit
  IsShown (type_query q) s = Unit
  IsShown (press key) s = Unit

  closed-IsWithin : (s : Shell) → IsWithin (close_palette s)
  unfolding close_palette
  closed-IsWithin s = record { bounds = inr refl; cleared = λ e. (refl, refl) }

  go_to-IsWithin : (found : Option NavItem) (s : Shell) → IsWithin s → IsWithin (go_to found s)
  unfolding go
  go_to-IsWithin none s w = w
  go_to-IsWithin (some item) s w = closed-IsWithin (record s { location = item.to })

  moved-IsWithin :
      (s : Shell) (i : ℤ)
      → s.palette_open ≡ true
      → InBounds i (length (shown speech s))
      → IsWithin (record s { active_index = i })
  moved-IsWithin s i open_now h = record { bounds = h; cleared = λ e. cc }

  change_query-IsWithin :
      (q : Text) (s : Shell) → s.palette_open ≡ true → IsWithin s → IsWithin (change_query q s)
  unfolding change_query
  change_query-IsWithin q s open_now w = elim (Bool-cases (q == s.query)) [
    | inl same ↦ rw same w
    | inr other ↦ rw other (record { bounds = inr refl; cleared = λ e. cc })
  ]

  on_key-IsWithin :
      (key : Key) (s : Shell) → s.palette_open ≡ true → IsWithin s → IsWithin (on_key speech key s)
  unfolding on_key
  on_key-IsWithin escape s o w = closed-IsWithin s
  on_key-IsWithin arrow_down s o w = moved-IsWithin s _ o (down-InBounds s.active_index _ w.bounds)
  on_key-IsWithin arrow_up s o w = moved-IsWithin s _ o (up-InBounds s.active_index _ w.bounds)
  on_key-IsWithin enter s o w = go_to-IsWithin (element_at (shown speech s) s.active_index) s w
  on_key-IsWithin other_key s o w = w

  if_open-IsWithin :
      (f : Shell → Shell) (s : Shell)
      → IsWithin s
      → (s.palette_open ≡ true → IsWithin (f s))
      → IsWithin (if s.palette_open then f s else s)
  if_open-IsWithin f s w h = if_intro IsWithin s.palette_open (f s) s h (λ _. w)

  open-IsWithin : (s : Shell) → IsWithin s → IsWithin (open_it s)
  unfolding open_it
  open-IsWithin s w = record { bounds = w.bounds; cleared = λ e. cc }

  pub handle-IsWithin :
      (e : Event) (s : Shell) → IsShown e s → IsWithin s → IsWithin (handle speech e s)
  unfolding handle toggle_palette
  handle-IsWithin toggle s h w =
      if_intro IsWithin s.palette_open (close_palette s) (open_it s) (λ _. closed-IsWithin s)
        (λ _. open-IsWithin s w)
  handle-IsWithin open_palette s h w = open-IsWithin s w
  handle-IsWithin backdrop s h w = if_open-IsWithin close_palette s w (λ o. closed-IsWithin s)
  handle-IsWithin (type_query q) s h w =
      if_open-IsWithin (change_query q) s w (λ o. change_query-IsWithin q s o w)
  handle-IsWithin (hover i) s h w =
      if_open-IsWithin (λ s. record s { active_index = pos i }) s w
        (λ o. moved-IsWithin s (pos i) o (inl h))
  handle-IsWithin (choose i) s h w =
      if_open-IsWithin (λ s. go_to (get_elem? (shown speech s) i) s) s w
        (λ o. go_to-IsWithin (get_elem? (shown speech s) i) s w)
  handle-IsWithin (press key) s h w =
      if_open-IsWithin (on_key speech key) s w (λ o. on_key-IsWithin key s o w)
