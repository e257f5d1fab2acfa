-- ===== src/Integrations/Drawer.antt =====
-- The drawer of a connector: frontend/src/components/integrations/ConnectorDrawer.tsx, and the test
-- of a connector from its card, frontend/src/components/integrations/ConnectorCard.tsx and
-- frontend/src/pages/Integrations.tsx. `JSON.parse` is a parameter.
pub mod Offers
pub mod Authority
mod Tests
use agent_os_test.Prelude.{
  ℕ, ◌-◌, Bool, ◌&&◌, ◌||◌, true, false, not, Option, none, some, is_some, List, [], ◌∷◌, ◌++◌,
  Text, StrictEq, eq_of_discrete, ◌==◌, text_has_eq, units, trim, is_empty, filter, length, ltb,
  take, if◌then◌else◌,
}
use agent_os_test.Json.{Value, obj, end}
use agent_os_test.Types.Connectors.{
  ConnectorStatusValue, CapabilityRisk, CapabilityDetail, McpCapabilities,
}
use agent_os_test.I18n.Interpolate.{Inherited}
use agent_os_test.I18n.Catalogue.{Catalogue, translate}
use agent_os_test.I18n.Locales.En.{en}
use agent_os_test.Api.Client.{or_text}
use agent_os_test.Hub.{UnifiedConnector, is_coming_soon, is_oauth, status_has_eq}
use agent_os_test.Ui.Toast.{Toast, success, error}

pub CapabilityRisk-discrete : Discrete CapabilityRisk
CapabilityRisk-discrete = hlevel

instance abbrev pub risk_has_eq : StrictEq CapabilityRisk
risk_has_eq = eq_of_discrete CapabilityRisk-discrete

-- What the drawer asks of the backend.
pub data Request : Type 0 where
  test_server test_connector delete_server authorize disconnect : Text → Request
  execute : Text → Text → Value → Request

-- `isMcp`
abbrev pub is_mcp : UnifiedConnector → Bool
is_mcp c = is_some c.mcp_server

-- `isOAuth`
abbrev pub is_live_oauth : UnifiedConnector → Bool
is_live_oauth c = is_oauth c.entry.connector_type && c.entry.implemented

-- `runTest`
unfoldable pub run_test : UnifiedConnector → Option Request
run_test c = elim c.mcp_server [
  | some server ↦ some (test_server server.id)
  | none ↦ if c.entry.implemented then some (test_connector c.entry.id) else none
]

-- `handleTest` of the page.
unfoldable pub handle_test : UnifiedConnector → Request
handle_test c = elim c.mcp_server [
  | some server ↦ test_server server.id
  | none ↦ test_connector c.entry.id
]

-- `confirmRemoveMcp`
unfoldable pub confirm_remove_mcp : UnifiedConnector → Option Request
confirm_remove_mcp c = elim c.mcp_server [
  | some server ↦ some (delete_server server.id)
  | none ↦ none
]

-- `onConfirm` of the dialog.
unfoldable pub on_confirm : UnifiedConnector → Option Request
unfolding confirm_remove_mcp
on_confirm c = if is_live_oauth c then some (disconnect c.entry.id) else confirm_remove_mcp c

abbrev pub is_connected_now : UnifiedConnector → Bool
is_connected_now c = c.entry.status == ConnectorStatusValue.connected

abbrev pub needs_setup_first : UnifiedConnector → Bool
needs_setup_first c = c.entry.status == ConnectorStatusValue.needs_setup

-- The buttons below the details: whether each is there, and whether it can be pressed.
abbrev pub shows_authorize : UnifiedConnector → Bool
shows_authorize c = c.entry.implemented && (is_live_oauth c && not (is_connected_now c))

abbrev pub shows_test : UnifiedConnector → Bool
shows_test c = c.entry.implemented && not (is_live_oauth c && not (is_connected_now c))

abbrev pub shows_disconnect : UnifiedConnector → Bool
shows_disconnect c = c.entry.implemented && (is_mcp c || (is_live_oauth c && is_connected_now c))

-- The form to execute a workflow stands outside of the test for `implemented`.
abbrev pub shows_execute : UnifiedConnector → Bool
shows_execute c = c.entry.id == units "n8n" && c.entry.configured

abbrev pub can_start : Bool → UnifiedConnector → Bool
can_start authed c = authed && not (needs_setup_first c)

-- `showTestButton` of the card, for a card with `onTest`.
abbrev pub card_shows_test : UnifiedConnector → Bool
card_shows_test c = c.entry.implemented && not (needs_setup_first c)

-- The capabilities that the card names, and the number of those that it does not.
abbrev pub card_limit : Bool → ℕ
card_limit is_integrated = if is_integrated then 1 else 2

abbrev pub card_capabilities : Bool → UnifiedConnector → List Text
card_capabilities is_integrated c =
    if is_coming_soon c then [] else take (card_limit is_integrated) c.entry.capabilities

abbrev pub card_more : Bool → UnifiedConnector → ℕ
card_more is_integrated c =
    if is_coming_soon c then 0 else length c.entry.capabilities - card_limit is_integrated

-- The state of the drawer.
pub record Drawer : Type 0 where
  pub confirm_delete : Bool
  pub workflow : Text
  pub payload_text : Text
  pub payload_error : Option Text
  pub is_open : Bool

abbrev pub can_execute : Bool → Drawer → Bool
can_execute authed d = authed && not (is_empty d.workflow)

-- `runExecute`, with the text for a payload that is not JSON.
unfoldable pub run_execute :
    (Text → Option Value) → Text → UnifiedConnector → Drawer → Drawer × Option Request
run_execute parse_json invalid c d =
    let parsed =
      if is_empty (trim d.payload_text) then some (obj end) else parse_json d.payload_text in
    elim parsed [
      | none ↦ (record d { payload_error = some invalid }, none)
      | some payload ↦
          (record d { payload_error = none }, some (execute c.entry.id d.workflow payload))
    ]

-- `onSuccess` of a removal and of a disconnection: the dialog and the drawer are closed.
abbrev pub removed : Drawer → Drawer
removed d = record d { confirm_delete = false; is_open = false }

abbrev pub removed_toast : UnifiedConnector → Toast
removed_toast c =
    if is_live_oauth c
    then record {
      title = c.entry.name ++ units " disconnected";
      description = none;
      tone = success;
    }
    else record { title = units "MCP server removed"; description = none; tone = success }

abbrev pub failed_toast : UnifiedConnector → Text → Toast
failed_toast c message = record {
  title = if is_live_oauth c then units "Disconnect failed" else units "Remove failed";
  description = some message;
  tone = error;
}

-- The three groups of capabilities.
abbrev pub authority_group : CapabilityRisk → UnifiedConnector → List CapabilityDetail
authority_group risk c = filter (λ d. d.risk == risk) c.entry.capability_details

abbrev pub capability_key : Text → Text
capability_key id = units "capabilities." ++ id

-- The label of a capability.
unfoldable pub capability_label : Inherited → Catalogue → CapabilityDetail → Text
capability_label inherited catalogue d =
    or_text (translate inherited catalogue en (capability_key d.id) none) d.label

-- Whether the capabilities of a server are still unknown.
abbrev pub has_no_capabilities : McpCapabilities → Bool
has_no_capabilities caps = is_empty caps.tools && is_empty caps.resources && is_empty caps.prompts
