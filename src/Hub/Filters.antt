-- ===== src/Hub/Filters.antt =====
-- The filter chips of the Integration Hub.
use agent_os_test.Prelude.{
  ◌≡◌, ℕ, List, [], ◌∷◌, text_has_eq, text_eq, units, length, filter, arith, ◌==◌, if◌then◌else◌,
}
use agent_os_test.Hub.{
  UnifiedConnector, FilterChip, matches_filter, is_connected, is_ready_to_connect, is_coming_soon,
  status_has_eq, category_name,
}

abbrev pub state_chips : List FilterChip
state_chips = FilterChip.connected ∷ (FilterChip.ready ∷ (FilterChip.coming_soon ∷ []))

abbrev pub type_chips : List FilterChip
type_chips = FilterChip.mcp ∷ (FilterChip.api ∷ (FilterChip.oauth ∷ (FilterChip.webhook ∷ [])))

abbrev pub category_chips : List FilterChip
category_chips =
    FilterChip.automation
    ∷ (FilterChip.ai
        ∷ (FilterChip.productivity
            ∷ (FilterChip.developer ∷ (FilterChip.data_value ∷ (FilterChip.google ∷ [])))))

-- How many of these chips show the connector.
abbrev pub showing : UnifiedConnector → List FilterChip → ℕ
showing c chips = length (filter (matches_filter c) chips)

showing-state : (c : UnifiedConnector) → showing c state_chips ≡ 1
unfolding matches_filter is_connected is_ready_to_connect is_coming_soon
showing-state c = ground arith

showing-type : (c : UnifiedConnector) → showing c type_chips ≡ 1
unfolding matches_filter text_eq
showing-type c = ground arith

-- Of the chips for a state, for a type and for a category, exactly one of each kind shows a
-- connector, but no category chip shows a connector of the category `other`.
pub matches_filter-once :
    (c : UnifiedConnector)
    → (showing c state_chips ≡ 1)
      × (showing c type_chips ≡ 1)
      × (showing c category_chips
          ≡ (if category_name c.entry.category == units "other" then 0 else 1))
unfolding matches_filter text_eq
matches_filter-once c = (showing-state c, showing-type c, ground arith)
