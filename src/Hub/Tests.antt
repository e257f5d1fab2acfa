-- ===== src/Hub/Tests.antt =====
-- The theorems on the hub at a configured server and a catalog entry that is not built.
use agent_os_test.Prelude.{
  ◌≡◌, ◌⊎◌, true, false, none, List, [], ◌∷◌, Text, text_has_eq, units, All,
}
use agent_os_test.Types.Connectors.{
  ConnectorType, ConnectorCategory, ConnectorStatusValue, ConnectorAuthType, ConnectorKind,
  McpAuthType, McpServer,
}
use agent_os_test.Hub.{
  UnifiedConnector, mcp_server_to_connector, is_coming_soon, PrimaryAction, primary_action,
  StatusBucket, status_bucket,
}
use agent_os_test.Hub.States.{Stands, primary_action-agrees}
use agent_os_test.Hub.Groups.{Sign, level, group_by_category}
use agent_os_test.Hub.Groups.Partition.{tally, total, group_by_category-total}
use agent_os_test.Hub.Groups.Ranked.{IsShown, group_by_category-IsShown}

abbrev server : McpServer
server = record {
  id = units "s";
  name = units "Server";
  endpoint = units "https://s";
  auth_type = McpAuthType.none;
  header_name = none;
  has_secret = false;
  timeout_seconds = units "30";
  enabled = true;
  created_at = units "now";
  connected = none;
  last_check = none;
  last_check_latency_ms = none;
  last_check_error = none;
  capabilities = record { tools = []; resources = []; prompts = [] };
}

abbrev configured : UnifiedConnector
configured = mcp_server_to_connector server

abbrev planned : UnifiedConnector
planned = record {
  entry = record {
    id = units "p";
    name = units "Planned";
    description = [];
    category = ConnectorCategory.ai;
    connector_type = ConnectorType.oauth;
    icon = units "Plug";
    auth_type = ConnectorAuthType.oauth2;
    capabilities = [];
    capability_details = [];
    kind = ConnectorKind.user_connector;
    provider = units "p";
    popular = true;
    documentation_url = none;
    implemented = false;
    requires = [];
    status = ConnectorStatusValue.available;
    configured = false;
    connected = none;
    last_check = none;
    last_check_latency_ms = none;
    last_check_error = none;
    last_execution = none;
    last_execution_success = none;
  };
  mcp_server = none;
}

abbrev both : List UnifiedConnector
both = planned ∷ (configured ∷ [])

abbrev alike : Text → Text → Sign
alike a b = level

primary_action-agrees_example :
    (Stands planned true false false
      × (primary_action planned ≡ PrimaryAction.manage)
      × (status_bucket planned ≡ StatusBucket.connected))
    ⊎ ((Stands planned false true false
          × ((primary_action planned ≡ PrimaryAction.test)
              ⊎ ((primary_action planned ≡ PrimaryAction.connect)
                  ⊎ (primary_action planned ≡ PrimaryAction.configure)))
          × ((status_bucket planned ≡ StatusBucket.needs_verification)
              ⊎ (status_bucket planned ≡ StatusBucket.needs_setup)))
        ⊎ (Stands planned false false true
            × (primary_action planned ≡ PrimaryAction.coming_soon)
            × (status_bucket planned ≡ StatusBucket.not_built)))
primary_action-agrees_example = primary_action-agrees planned

group_by_category-total_example :
    total is_coming_soon (group_by_category alike both) ≡ tally is_coming_soon both
group_by_category-total_example = group_by_category-total alike is_coming_soon both

group_by_category-IsShown_example : All (IsShown alike) (group_by_category alike both)
group_by_category-IsShown_example = group_by_category-IsShown alike both
