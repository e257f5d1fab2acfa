-- ===== src/Integrations/Browse/Tests.antt =====
-- The theorem on the chips, at one server.
use mathlib.Core.List.{Memᴰ}
use agent_os_test.Prelude.{
  ◌≡◌, ◌↔◌, ◌<◌, false, true, Option, none, some, List, [], ◌∷◌, units, ascii_lower, length,
}
use agent_os_test.Types.Connectors.{ConnectorCategory, McpAuthType, McpServer}
use agent_os_test.Hub.{UnifiedConnector, StatusBucket}
use agent_os_test.Integrations.Browse.{
  Choice, all_connectors, bucket_chip, category_chip, category_chips,
}
use agent_os_test.Integrations.Browse.Chips.{shown_by_bucket, shown_by_category, chips-length}

abbrev server : McpServer
server = record {
  id = units "s";
  name = units "Server";
  endpoint = units "https://s";
  auth_type = McpAuthType.none;
  header_name = none;
  has_secret = false;
  timeout_seconds = units "30";
  enabled = true;
  created_at = units "now";
  connected = none;
  last_check = none;
  last_check_latency_ms = none;
  last_check_error = none;
  capabilities = record { tools = []; resources = []; prompts = [] };
}

abbrev connectors : List UnifiedConnector
connectors = all_connectors [] (server ∷ [])

abbrev choice : Choice
choice = record { search = []; bucket = some StatusBucket.needs_verification; category = none }

chips-length_example :
    ((b : Option StatusBucket)
      → bucket_chip ascii_lower connectors b choice
        ≡ length (shown_by_bucket ascii_lower connectors b choice))
    × ((category : Option ConnectorCategory)
        → category_chip ascii_lower connectors category choice
          ≡ length (shown_by_category ascii_lower connectors category choice))
    × ((category : ConnectorCategory)
        → Memᴰ category (category_chips ascii_lower connectors choice)
          ↔ (0 < length (shown_by_category ascii_lower connectors (some category) choice)))
chips-length_example = chips-length ascii_lower connectors choice
