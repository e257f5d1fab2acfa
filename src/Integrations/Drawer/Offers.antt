-- ===== src/Integrations/Drawer/Offers.antt =====
-- What the buttons of frontend/src/components/integrations/ConnectorDrawer.tsx do.
use mathlib.Core.List.{Memᴰ}
use mathlib.Core.List.Memᴰ
use agent_os_test.Prelude.{
  ◌≡◌, refl, sym, ap, ◌∙◌, ◌⊎◌, inl, inr, Bool, ◌&&◌, ◌||◌, true, false, not, none, some, List, [],
  ◌++◌, ◌==◌, Text, text_has_eq, text_eq, units, ◌∷◌, map, Mem_append, Bool-cases, Option-cases,
  some_inj, none_elim, arith,
}
use agent_os_test.Types.Connectors.{McpServer}
use agent_os_test.Hub.{UnifiedConnector, mcp_server_to_connector, status_has_eq}
use agent_os_test.Integrations.Browse.{all_connectors}
use agent_os_test.Integrations.Drawer.{
  Request, delete_server, disconnect, is_mcp, is_live_oauth, is_connected_now, run_test,
  handle_test, confirm_remove_mcp, on_confirm, shows_authorize, shows_test, shows_disconnect,
  shows_execute,
}

-- The entries of the catalog carry no server.
abbrev pub IsCatalog : List UnifiedConnector → Type 0
IsCatalog catalog = (c : UnifiedConnector) → Memᴰ c catalog → c.mcp_server ≡ none

-- What is asked for once the operator confirms.
abbrev pub Confirmed : UnifiedConnector → Request → Type 0
Confirmed c r =
    (on_confirm c ≡ some r)
    × ((s : McpServer) → c.mcp_server ≡ some s → r ≡ delete_server s.id)
    × (c.mcp_server ≡ none → r ≡ disconnect c.entry.id)

-- A connector is the catalog's, or one of a server and no OAuth.
abbrev Kind : UnifiedConnector → Type 0
Kind c =
    (c.mcp_server ≡ none)
    ⊎ ((s : McpServer) × (c.mcp_server ≡ some s)
        × (is_live_oauth c ≡ false)
        × (c.entry.id ≡ units "mcp:" ++ s.id))

servers-Kind :
    (servers : List McpServer) (c : UnifiedConnector)
    → Memᴰ c (map mcp_server_to_connector servers)
    → Kind c
unfolding mcp_server_to_connector
servers-Kind [] c m = elim m [ ]
servers-Kind (s ∷ servers) c m = elim (Memᴰ.cases_cons m) [
  | inl e ↦ rw e (inr (s, refl, refl, refl))
  | inr later ↦ servers-Kind servers c later
]

connectors-Kind :
    (catalog : List UnifiedConnector) (servers : List McpServer) (c : UnifiedConnector)
    → IsCatalog catalog
    → Memᴰ c (all_connectors catalog servers)
    → Kind c
connectors-Kind catalog servers c h m =
    elim ((Mem_append catalog (map mcp_server_to_connector servers) c).1 m) [
      | inl own ↦ inl (h c own)
      | inr other ↦ servers-Kind servers c other
    ]

one_of : (built starts : Bool) → built ≡ true → (built && starts) ≡ not (built && not starts)
one_of built starts h = ground arith

no_disconnect :
    (implemented mcp connected : Bool)
    → mcp ≡ false
    → (implemented && (mcp || (false && connected))) ≡ true
    → ⊥
no_disconnect implemented mcp connected e h = ground arith

confirm-Confirmed :
    (c : UnifiedConnector) → Kind c → shows_disconnect c ≡ true → (r : Request) × Confirmed c r
unfolding on_confirm confirm_remove_mcp
confirm-Confirmed c (inl bare) h = elim (Bool-cases (is_live_oauth c)) [
  | inl live ↦ (disconnect c.entry.id, (rw live refl, λ s e. none_elim (sym bare ∙ e), λ _. refl))
  | inr dead ↦ absurd (
      no_disconnect c.entry.implemented (is_mcp c) (is_connected_now c) (rw bare refl)
        (rw dead at h))
]
confirm-Confirmed c (inr (s, e, dead, _)) h = (
  delete_server s.id,
  (
    rw (dead, e, confirm_remove_mcp) refl,
    λ t f. ap (λ (v : McpServer). delete_server v.id) (some_inj (sym e ∙ f)),
    λ missing. none_elim (sym missing ∙ e),
  ),
)

never_n8n : (id : Text) → (units "mcp:" ++ id == units "n8n") ≡ false
unfolding text_eq
never_n8n id = refl

no_execute : (c : UnifiedConnector) → Kind c → is_mcp c ≡ true → shows_execute c ≡ false
no_execute c (inl bare) h = let e : is_mcp c ≡ false = rw bare refl in ground arith
no_execute c (inr (s, e, dead, named)) h =
    let other : (c.entry.id == units "n8n") ≡ false = rw named (never_n8n s.id) in ground arith

test-agrees :
    (c : UnifiedConnector) → c.entry.implemented ≡ true → run_test c ≡ some (handle_test c)
unfolding run_test handle_test
test-agrees c h = elim (Option-cases c.mcp_server) [
  | inl bare ↦ rw (bare, h, run_test, handle_test) refl
  | inr (s, e) ↦ rw (e, run_test, handle_test) refl
]

-- If the entries of the catalog carry no server: a connector of the page offers a button to
-- disconnect only if confirming it has an effect: it
-- removes the server of a connector that has one, and disconnects every other. A connector that is
-- built offers either to be authorized or to be tested, and the test asks what the test of its card
-- asks. One that is not built has none of these three buttons. The form to execute a workflow is not
-- there for a connector that has a server.
pub drawer-Confirmed :
    (catalog : List UnifiedConnector) (servers : List McpServer) (c : UnifiedConnector)
    → IsCatalog catalog
    → Memᴰ c (all_connectors catalog servers)
    → (shows_disconnect c ≡ true → (r : Request) × Confirmed c r)
      × (c.entry.implemented ≡ true
          → (shows_authorize c ≡ not (shows_test c)) × (run_test c ≡ some (handle_test c)))
      × (c.entry.implemented ≡ false
          → (shows_authorize c ≡ false) × (shows_test c ≡ false) × (shows_disconnect c ≡ false))
      × (is_mcp c ≡ true → shows_execute c ≡ false)
drawer-Confirmed catalog servers c h m = (
  confirm-Confirmed c (connectors-Kind catalog servers c h m),
  λ built. (
    one_of c.entry.implemented (is_live_oauth c && not (is_connected_now c)) built,
    test-agrees c built,
  ),
  λ planned. (rw planned refl, rw planned refl, rw planned refl),
  no_execute c (connectors-Kind catalog servers c h m),
)
