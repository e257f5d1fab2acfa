-- ===== src/Navigation/Routes.antt =====
-- The routes that `App` of frontend/src/App.tsx declares.
use Prim.Native.String.{String}
use agent_os_test.Prelude.{Option, none, some, List, [], ◌∷◌, Text, units}

-- The lazily loaded pages.
pub data Page : Type 0 where
  dashboard overview privacy about tasks orchestrate autonomous agents workflows workflow_runs
        approvals memory runtime tools integrations audit system_health settings not_found :
      Page

-- `index`, `path="…"` and `path="*"`
pub data RoutePath : Type 0 where
  index : RoutePath
  path : Text → RoutePath
  splat : RoutePath

abbrev path_of : String → RoutePath
path_of s = path (units s)

-- The routes below `AppShell`, with the page that each shows.
abbrev pub routes : List (RoutePath × Page)
routes =
    (index, dashboard)
    ∷ (path_of "overview", overview)
    ∷ (path_of "privacy", privacy)
    ∷ (path_of "about", about)
    ∷ (path_of "tasks", tasks)
    ∷ (path_of "orchestrate", orchestrate)
    ∷ (path_of "autonomous", autonomous)
    ∷ (path_of "agents", agents)
    ∷ (path_of "workflows", workflows)
    ∷ (path_of "workflows/runs", workflow_runs)
    ∷ (path_of "approvals", approvals)
    ∷ (path_of "memory", memory)
    ∷ (path_of "runtime", runtime)
    ∷ (path_of "tools", tools)
    ∷ (path_of "integrations", integrations)
    ∷ (path_of "audit", audit)
    ∷ (path_of "system-health", system_health)
    ∷ (path_of "settings", settings)
    ∷ (splat, not_found)
    ∷ []

-- The address of a route whose path is fixed: the routes are relative to `/`.
abbrev pub address : RoutePath → Option Text
address index = some (b'/' ∷ [])
address (path p) = some (b'/' ∷ p)
address splat = none
