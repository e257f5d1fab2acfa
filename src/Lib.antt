-- ===== src/Lib.antt =====
-- A verification library for the frontend of the agent platform, frontend/src: the code that
-- decides what is sent, stored and shown, without the rendering.
--
-- The parts and their files:
--   Prelude     helpers: texts as UTF-16 units, the array, string, set and map methods in use
--   Json        JSON values
--   Types       the exchanged data, one module per section of frontend/src/lib/types.ts
--   Browser     the storages, which may throw, and addresses
--   Session     the session's history: frontend/src/lib/session-history.ts
--   Environment the label of a deployment: frontend/src/lib/environment.ts
--   Api         Config is frontend/src/lib/api/config.ts, Client frontend/src/lib/api/client.ts,
--               Queries frontend/src/lib/api/queries.ts
--   I18n        Registry is frontend/src/lib/i18n/registry.ts; Detect, Interpolate and Catalogue
--               are frontend/src/lib/i18n/index.tsx, Locales the catalogues of
--               frontend/src/lib/i18n/locales, one module per namespace or page
--   Workflow    Cycle and Validate are frontend/src/lib/workflow-validate.ts, Editor is
--               frontend/src/pages/Workflows.tsx, StepForm the dialog of
--               frontend/src/components/workflows/StepEditorDialog.tsx
--   Hub         frontend/src/lib/integration-hub.ts, Hub/Groups its grouping and counts
--   Ui          States is ErrorState of frontend/src/components/ui/States.tsx, Theme is
--               frontend/src/lib/theme.tsx, Toast and StatusBadge are the files of those
--               names in frontend/src/components/ui, Connection is
--               frontend/src/components/layout/ConnectionStatus.tsx
--   Navigation  frontend/src/lib/nav.ts; Routes is frontend/src/App.tsx, Palette and Sidebar are
--               frontend/src/components/layout/CommandPalette.tsx, AppShell.tsx and Sidebar.tsx
--   Integrations Browse is frontend/src/pages/Integrations.tsx, AddServer and Drawer are
--               AddMcpServerDialog.tsx and ConnectorDrawer.tsx of
--               frontend/src/components/integrations
--   Pages       Approvals, Dashboard, Runtime and Settings are the pages of those names in
--               frontend/src/pages, MemoryGraph is frontend/src/components/memory/MemoryGraph.tsx
-- The client reads the address and the key from Api/Config.
-- The hooks of Queries make the client's requests, and Ui/States renders the client's errors with
-- the texts of I18n. The editor checks its graph by Workflow/Validate and writes a started run to
-- the history of Session. The palette and the sidebar show the items of Navigation, whose labels are
-- texts of I18n and whose addresses are routes of the app. Integrations shows the connectors of Hub.
-- The settings write the configuration of Api, and the dashboard shows the health that Ui/Connection
-- shows in the top bar. The pages of approvals and of the runtime record what was granted and
-- triggered in the history of Session.
--
-- A function has the name of the source in snake case. State is passed explicitly: a function that
-- writes returns the new state, a storage is a record, and a call that may throw is an `Attempt`.
-- What a callback or the network observes is a list of effects or of calls. Numbers that only pass
-- through stand as the decimal text that JSON writes.
--
-- Fuel: the search for cycles has one level of calls more than the map has ids, and a theorem shows
-- that it never runs out. `decimal` has more rounds than the number has digits.
--
-- Parameters, with what is assumed of them where they are used: `fetch`, JSON texts, `new URL`,
-- `encodeURIComponent`, `toLowerCase` beyond ASCII, `localeCompare`, `addEdge` of the drawing
-- library and what a plain object inherits.
--
-- Not modelled: rendering and styles, the removals that the drawing library makes by its own keys,
-- `mergeSignals` and the fresh ids of the client, the formats of Intl, the router's matching, the
-- remaining pages, and the backend, which is in another language.
pub mod Prelude
pub mod Json
pub mod Types
pub mod Browser
pub mod Session
pub mod Environment
pub mod Api
pub mod I18n
pub mod Workflow
pub mod Hub
pub mod Ui
pub mod Navigation
pub mod Integrations
pub mod Pages
