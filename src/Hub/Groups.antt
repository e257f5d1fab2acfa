-- ===== src/Hub/Groups.antt =====
-- Connectors in the order of their category, and the count of each bucket:
-- frontend/src/lib/integration-hub.ts, lines 178 to 226. `localeCompare` is a parameter, and
-- `sort` is the stable sort that the runtime has.
pub mod Partition
pub mod Ranked
pub mod Tallies
use agent_os_test.Prelude.{
  ℕ, suc, ◌+◌, Bool, true, false, List, [], ◌∷◌, map, Text, text_has_eq, text_eq, ◌==◌, ltb, filter,
  is_empty, not, if◌then◌else◌,
}
use agent_os_test.Types.Connectors.{ConnectorCategory}
use agent_os_test.Hub.{
  UnifiedConnector, is_coming_soon, category_name, StatusBucket, connected, needs_verification,
  needs_setup, not_built, status_bucket,
}

abbrev pub category_order : List ConnectorCategory
category_order =
    ConnectorCategory.ai
    ∷ (ConnectorCategory.automation
        ∷ (ConnectorCategory.productivity
            ∷ (ConnectorCategory.google
                ∷ (ConnectorCategory.developer
                    ∷ (ConnectorCategory.data_value ∷ (ConnectorCategory.other ∷ []))))))

pub record CategoryGroup : Type 0 where
  pub category : ConnectorCategory
  pub connectors : List UnifiedConnector

-- The sign of the number that a comparison returns.
pub data Sign : Type 0 where
  negative level positive : Sign

abbrev pub rank : UnifiedConnector → ℕ
rank c = (if is_coming_soon c then 2 else 0) + (if c.entry.popular then 0 else 1)

abbrev pub in_category : ConnectorCategory → UnifiedConnector → Bool
in_category category c = category_name c.entry.category == category_name category

abbrev pub has_some : CategoryGroup → Bool
has_some group = not (is_empty group.connectors)

module _ (locale_compare : Text → Text → Sign) where
  -- `rank(a) - rank(b) || a.name.localeCompare(b.name)`
  abbrev pub compare : UnifiedConnector → UnifiedConnector → Sign
  compare a b =
      if ltb (rank a) (rank b)
      then negative
      else if ltb (rank b) (rank a)
      then positive
      else locale_compare a.entry.name b.entry.name

  -- Puts `a` before the first element that it does not follow.
  pub place : UnifiedConnector → List UnifiedConnector → List UnifiedConnector
  place a [] = a ∷ []
  place a (b ∷ l) = elim (compare a b) [
    | positive ↦ b ∷ place a l
    | negative ↦ a ∷ (b ∷ l)
    | level ↦ a ∷ (b ∷ l)
  ]

  pub sort : List UnifiedConnector → List UnifiedConnector
  sort [] = []
  sort (a ∷ l) = place a (sort l)

  abbrev pub group_of : List UnifiedConnector → ConnectorCategory → CategoryGroup
  group_of connectors category = record {
    category = category;
    connectors = sort (filter (in_category category) connectors);
  }

  pub group_by_category : List UnifiedConnector → List CategoryGroup
  group_by_category connectors = filter has_some (map (group_of connectors) category_order)

-- `Record<StatusBucket, number>`
pub record Counts : Type 0 where
  pub of_connected : ℕ
  pub of_needs_verification : ℕ
  pub of_needs_setup : ℕ
  pub of_not_built : ℕ

-- `counts[bucket] += 1`
abbrev pub bump : StatusBucket → Counts → Counts
bump connected k = record k { of_connected = suc k.of_connected }
bump needs_verification k = record k { of_needs_verification = suc k.of_needs_verification }
bump needs_setup k = record k { of_needs_setup = suc k.of_needs_setup }
bump not_built k = record k { of_not_built = suc k.of_not_built }

-- The loop over the connectors.
abbrev pub count_on : List UnifiedConnector → Counts → Counts
count_on [] counts = counts
count_on (c ∷ l) counts = count_on l (bump (status_bucket c) counts)

unfoldable pub bucket_counts : List UnifiedConnector → Counts
bucket_counts l =
    count_on l
      (record { of_connected = 0; of_needs_verification = 0; of_needs_setup = 0; of_not_built = 0 })
