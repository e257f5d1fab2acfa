-- ===== src/Navigation.antt =====
-- The navigation: frontend/src/lib/nav.ts. An item's icon is left out.
pub mod Routes
pub mod Addresses
pub mod Palette
pub mod Sidebar
use Prim.Native.String.{String}
use agent_os_test.Prelude.{List, [], ◌∷◌, ◌++◌, Text, units}

pub record NavItem : Type 0 where
  pub label_key : Text
  pub to : Text

pub record NavGroup : Type 0 where
  pub label_key : Text
  pub items : List NavItem

abbrev item : String → String → NavItem
item label_key to = record { label_key = units label_key; to = units to }

abbrev group_of : String → List NavItem → NavGroup
group_of label_key items = record { label_key = units label_key; items = items }

-- `navGroups`
abbrev pub nav_groups : List NavGroup
nav_groups =
    group_of "nav.groups.overview"
      (item "nav.items.dashboard" "/" ∷ item "nav.items.productOverview" "/overview" ∷ [])
    ∷ group_of "nav.groups.execution" (
        item "nav.items.tasks" "/tasks"
        ∷ item "nav.items.orchestrate" "/orchestrate"
        ∷ item "nav.items.autonomousRuns" "/autonomous"
        ∷ item "nav.items.agents" "/agents"
        ∷ [])
    ∷ group_of "nav.groups.workflows" (
        item "nav.items.workflows" "/workflows"
        ∷ item "nav.items.workflowRuns" "/workflows/runs"
        ∷ item "nav.items.approvals" "/approvals"
        ∷ [])
    ∷ group_of "nav.groups.knowledge" (item "nav.items.memory" "/memory" ∷ [])
    ∷ group_of "nav.groups.operations" (
        item "nav.items.runtime" "/runtime"
        ∷ item "nav.items.tools" "/tools"
        ∷ item "nav.items.integrations" "/integrations"
        ∷ item "nav.items.auditLogs" "/audit"
        ∷ [])
    ∷ group_of "nav.groups.system" (
        item "nav.items.health" "/system-health"
        ∷ item "nav.items.settings" "/settings"
        ∷ item "nav.items.privacy" "/privacy"
        ∷ [])
    ∷ []

-- `secondaryNavItems`
abbrev pub secondary_nav_items : List NavItem
secondary_nav_items = item "pages.about.navLabel" "/about" ∷ []

-- `flatMap((g) => g.items)`
abbrev items_of : List NavGroup → List NavItem
items_of [] = []
items_of (g ∷ gs) = g.items ++ items_of gs

-- `allNavItems`
abbrev pub all_nav_items : List NavItem
all_nav_items = items_of nav_groups

-- `searchableNavItems`
abbrev pub searchable_nav_items : List NavItem
searchable_nav_items = all_nav_items ++ secondary_nav_items
