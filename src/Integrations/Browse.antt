-- ===== src/Integrations/Browse.antt =====
-- What the page shows of the connectors: frontend/src/pages/Integrations.tsx. `toLowerCase` is a
-- parameter, `none` is the choice `all`.
pub mod Chips
mod Tests
use agent_os_test.Prelude.{
  ℕ, zero, suc, ◌+◌, Bool, ◌&&◌, true, false, not, Option, none, some, List, [], ◌∷◌, ◌++◌, map,
  Text, StrictEq, eq_of_discrete, ◌==◌, filter, length, lookup, insert, ltb, if◌then◌else◌,
}
use agent_os_test.Types.Connectors.{ConnectorCategory, McpServer}
use agent_os_test.Hub.{
  UnifiedConnector, mcp_server_to_connector, is_connected, is_user_connector,
  is_system_infrastructure, matches_search, StatusBucket, connected, needs_verification,
  needs_setup, not_built, status_bucket,
}
use agent_os_test.Hub.Groups.{
  Counts, bucket_counts, CategoryGroup, Sign, category_order, group_by_category,
}

pub ConnectorCategory-discrete : Discrete ConnectorCategory
ConnectorCategory-discrete = hlevel

instance abbrev pub category_has_eq : StrictEq ConnectorCategory
category_has_eq = eq_of_discrete ConnectorCategory-discrete

pub StatusBucket-discrete : Discrete StatusBucket
StatusBucket-discrete = hlevel

instance abbrev pub bucket_has_eq : StrictEq StatusBucket
bucket_has_eq = eq_of_discrete StatusBucket-discrete

-- The state of the search and of the two rows of chips.
pub record Choice : Type 0 where
  pub search : Text
  pub bucket : Option StatusBucket
  pub category : Option ConnectorCategory

-- `allConnectors`
abbrev pub all_connectors : List UnifiedConnector → List McpServer → List UnifiedConnector
all_connectors catalog servers = catalog ++ map mcp_server_to_connector servers

-- `readyToConnect`
abbrev pub ready_to_connect : List UnifiedConnector → List UnifiedConnector
ready_to_connect cs = filter (λ c. status_bucket c == StatusBucket.needs_verification) cs

-- `infrastructure`
abbrev pub infrastructure : List UnifiedConnector → List UnifiedConnector
infrastructure cs = filter is_system_infrastructure cs

-- `bucket === "all" || statusBucket(c) === bucket`
abbrev pub in_bucket : Option StatusBucket → UnifiedConnector → Bool
in_bucket none c = true
in_bucket (some b) c = status_bucket c == b

-- `category === "all" || c.category === category`
abbrev pub has_category : Option ConnectorCategory → UnifiedConnector → Bool
has_category none c = true
has_category (some category) c = c.entry.category == category

-- `out.get(category) ?? 0`
abbrev pub count_or_zero : Option ℕ → ℕ
count_or_zero none = 0
count_or_zero (some n) = n

-- The body of the loop of `categoryCounts`.
abbrev pub tally_category :
    Option StatusBucket
    → UnifiedConnector
    → List (ConnectorCategory × ℕ)
    → List (ConnectorCategory × ℕ)
tally_category bucket c out =
    if not (in_bucket bucket c)
    then out
    else insert c.entry.category (count_or_zero (lookup c.entry.category out) + 1) out

abbrev pub tally_categories :
    Option StatusBucket
    → List UnifiedConnector
    → List (ConnectorCategory × ℕ)
    → List (ConnectorCategory × ℕ)
tally_categories bucket [] out = out
tally_categories bucket (c ∷ cs) out = tally_categories bucket cs (tally_category bucket c out)

-- `counts[bucket]`
abbrev pub count_of : StatusBucket → Counts → ℕ
count_of StatusBucket.connected k = k.of_connected
count_of StatusBucket.needs_verification k = k.of_needs_verification
count_of StatusBucket.needs_setup k = k.of_needs_setup
count_of StatusBucket.not_built k = k.of_not_built

-- `[...categoryCounts.values()].reduce((a, b) => a + b, 0)`
abbrev pub sum : List (ConnectorCategory × ℕ) → ℕ
sum [] = 0
sum ((category, n) ∷ out) = n + sum out

module _ (lower : Text → Text) (connectors : List UnifiedConnector) where
  unfoldable pub searched : Text → List UnifiedConnector
  searched search = filter (λ c. is_user_connector c && matches_search lower c search) connectors

  unfoldable pub counts : Choice → Counts
  unfolding searched
  counts k = bucket_counts (filter (has_category k.category) (searched k.search))

  unfoldable pub category_counts : Choice → List (ConnectorCategory × ℕ)
  unfolding searched
  category_counts k = tally_categories k.bucket (searched k.search) []

  unfoldable pub filtered : Choice → List UnifiedConnector
  unfolding searched
  filtered k = filter (λ c. in_bucket k.bucket c && has_category k.category c) (searched k.search)

  unfoldable pub groups : (Text → Text → Sign) → Choice → List CategoryGroup
  unfolding filtered
  groups locale_compare k = group_by_category locale_compare (filtered k)

  -- The count of a chip of the row of buckets.
  unfoldable pub bucket_chip : Option StatusBucket → Choice → ℕ
  unfolding searched counts
  bucket_chip none k = length (filter (has_category k.category) (searched k.search))
  bucket_chip (some b) k = count_of b (counts k)

  -- The count of a chip of the row of categories.
  unfoldable pub category_chip : Option ConnectorCategory → Choice → ℕ
  unfolding category_counts
  category_chip none k = sum (category_counts k)
  category_chip (some category) k = count_or_zero (lookup category (category_counts k))

  -- The categories that have a chip.
  unfoldable pub category_chips : Choice → List ConnectorCategory
  unfolding category_counts
  category_chips k =
      filter (λ category. ltb 0 (count_or_zero (lookup category (category_counts k))))
        category_order

-- A chip can be chosen if its count is not 0.
abbrev pub is_enabled : ℕ → Bool
is_enabled count = ltb 0 count
