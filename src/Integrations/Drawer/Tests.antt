-- ===== src/Integrations/Drawer/Tests.antt =====
-- The theorems on the drawer, at a server and at a capability.
use mathlib.Core.List.{Memᴰ}
use agent_os_test.Prelude.{◌≡◌, refl, inr, true, false, not, none, some, [], ◌∷◌, Text, units}
use agent_os_test.Types.Connectors.{high_risk, CapabilityDetail, McpAuthType, McpServer}
use agent_os_test.I18n.Interpolate.{Inherited}
use agent_os_test.I18n.Catalogue.{lookup_key}
use agent_os_test.I18n.Locales.{catalogue_of}
use agent_os_test.I18n.Locales.En.{en}
use agent_os_test.Api.Client.{or_text}
use agent_os_test.Hub.{UnifiedConnector, mcp_server_to_connector}
use agent_os_test.Integrations.Drawer.{
  Request, is_mcp, shows_execute, run_test, handle_test, shows_authorize, shows_test,
  shows_disconnect, capability_key, capability_label,
}
use agent_os_test.Integrations.Drawer.Offers.{Confirmed, drawer-Confirmed}
use agent_os_test.Integrations.Drawer.Authority.{capability_label-own}

abbrev server : McpServer
server = record {
  id = units "s";
  name = units "Server";
  endpoint = units "https://s";
  auth_type = McpAuthType.none;
  header_name = none;
  has_secret = false;
  timeout_seconds = units "30";
  enabled = true;
  created_at = units "now";
  connected = some true;
  last_check = none;
  last_check_latency_ms = none;
  last_check_error = none;
  capabilities = record { tools = []; resources = []; prompts = [] };
}

abbrev connector : UnifiedConnector
connector = mcp_server_to_connector server

drawer-Confirmed_example :
    (shows_disconnect connector ≡ true → (r : Request) × Confirmed connector r)
    × (connector.entry.implemented ≡ true
        → (shows_authorize connector ≡ not (shows_test connector))
          × (run_test connector ≡ some (handle_test connector)))
    × (connector.entry.implemented ≡ false
        → (shows_authorize connector ≡ false)
          × (shows_test connector ≡ false)
          × (shows_disconnect connector ≡ false))
    × (is_mcp connector ≡ true → shows_execute connector ≡ false)
drawer-Confirmed_example =
    drawer-Confirmed [] (server ∷ []) connector (λ c m. elim m [ ]) (Memᴰ.head refl)

abbrev sending : CapabilityDetail
sending = record {
  id = units "mail.message.send";
  label = units "Send mail";
  risk = high_risk;
  requires_approval = true;
}

abbrev mail : UnifiedConnector
mail = record connector { entry = record connector.entry { capability_details = sending ∷ [] } }

abbrev nothing_inherited : Inherited
nothing_inherited name = none

abbrev hindi : Text
hindi = units "hi"

capability_label-own_example :
    ((s : Text)
      → lookup_key en (capability_key sending.id) ≡ some s
      → (t : Text) × (lookup_key (catalogue_of hindi) (capability_key sending.id) ≡ some t)
        × (capability_label nothing_inherited (catalogue_of hindi) sending
            ≡ or_text t sending.label))
    × (lookup_key (catalogue_of hindi) (capability_key sending.id) ≡ none
        → lookup_key en (capability_key sending.id) ≡ none
        → capability_label nothing_inherited (catalogue_of hindi) sending
          ≡ capability_key sending.id)
capability_label-own_example = capability_label-own nothing_inherited hindi sending (inr refl)
