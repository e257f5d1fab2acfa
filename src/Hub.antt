-- ===== src/Hub.antt =====
-- The connectors that the Integration Hub shows: frontend/src/lib/integration-hub.ts, down to the
-- status buckets. `toLowerCase` is a parameter. A union of string literals is an enumeration.
-- The capabilities of a server are never missing, by the type in frontend/src/lib/types.ts.
pub mod Groups
pub mod States
pub mod Filters
mod Tests
use agent_os_test.Prelude.{
  Bool, ◌&&◌, ◌||◌, true, false, not, Option, none, some, List, [], ◌∷◌, ◌++◌, map, Text,
  text_has_eq, units, ◌==◌, StrictEq, eq_of_discrete, is_empty, is_some, trim, includes, join,
  if◌then◌else◌,
}
use agent_os_test.Types.Connectors.{
  ConnectorType, ConnectorCategory, ConnectorAuthType, ConnectorStatusValue, ConnectorKind,
  user_connector, system_infrastructure, ConnectorEntry, McpAuthType, McpCapabilityItem, McpServer,
}

pub ConnectorStatusValue-discrete : Discrete ConnectorStatusValue
ConnectorStatusValue-discrete = hlevel

instance abbrev pub status_has_eq : StrictEq ConnectorStatusValue
unfolding ConnectorStatusValue-discrete
status_has_eq = eq_of_discrete ConnectorStatusValue-discrete

-- The fields of the catalog, and the server of an entry that is one.
pub record UnifiedConnector : Type 0 where
  pub entry : ConnectorEntry
  pub mcp_server : Option McpServer

-- The status of a server.
abbrev pub server_status : McpServer → ConnectorStatusValue
server_status server =
    if not server.enabled then ConnectorStatusValue.disabled else elim server.connected [
      | some true ↦ ConnectorStatusValue.connected
      | some false ↦ ConnectorStatusValue.error
      | none ↦ ConnectorStatusValue.configured
    ]

abbrev pub server_auth_type : McpAuthType → ConnectorAuthType
server_auth_type McpAuthType.none = ConnectorAuthType.none
server_auth_type McpAuthType.bearer = ConnectorAuthType.bearer
server_auth_type McpAuthType.header = ConnectorAuthType.bearer

abbrev item_name : McpCapabilityItem → Text
item_name item = item.name

unfoldable pub mcp_server_to_connector : McpServer → UnifiedConnector
mcp_server_to_connector server = record {
  entry = record {
    id = units "mcp:" ++ server.id;
    name = server.name;
    description = units "MCP server at " ++ server.endpoint;
    category = ConnectorCategory.other;
    connector_type = ConnectorType.mcp;
    icon = units "Plug";
    auth_type = server_auth_type server.auth_type;
    capabilities =
        map item_name server.capabilities.tools
        ++ (map item_name server.capabilities.resources
            ++ map item_name server.capabilities.prompts);
    capability_details = [];
    kind = user_connector;
    provider = server.id;
    popular = false;
    documentation_url = none;
    implemented = true;
    requires = [];
    status = server_status server;
    configured = true;
    connected = server.connected;
    last_check = server.last_check;
    last_check_latency_ms = server.last_check_latency_ms;
    last_check_error = server.last_check_error;
    last_execution = none;
    last_execution_success = none;
  };
  mcp_server = some server;
}

pub is_connected : UnifiedConnector → Bool
is_connected c = c.entry.implemented && c.entry.status == ConnectorStatusValue.connected

pub is_ready_to_connect : UnifiedConnector → Bool
is_ready_to_connect c =
    c.entry.implemented && not (c.entry.status == ConnectorStatusValue.connected)

pub is_coming_soon : UnifiedConnector → Bool
is_coming_soon c = not c.entry.implemented

pub data PrimaryAction : Type 0 where
  manage connect configure test coming_soon : PrimaryAction

-- `connector_type === "oauth"`
abbrev pub is_oauth : ConnectorType → Bool
is_oauth ConnectorType.oauth = true
is_oauth ConnectorType.mcp = false
is_oauth ConnectorType.api = false
is_oauth ConnectorType.webhook = false

pub primary_action : UnifiedConnector → PrimaryAction
primary_action c =
    if is_coming_soon c
    then PrimaryAction.coming_soon
    else if c.entry.status == ConnectorStatusValue.connected
    then manage
    else if is_some c.mcp_server
    then test
    else if c.entry.status == ConnectorStatusValue.configured
        || c.entry.status == ConnectorStatusValue.error
    then test
    else if is_oauth c.entry.connector_type
    then connect
    else configure

abbrev pub category_name : ConnectorCategory → Text
category_name ConnectorCategory.automation = units "automation"
category_name ConnectorCategory.ai = units "ai"
category_name ConnectorCategory.developer = units "developer"
category_name ConnectorCategory.productivity = units "productivity"
category_name ConnectorCategory.google = units "google"
category_name ConnectorCategory.data_value = units "data"
category_name ConnectorCategory.other = units "other"

abbrev pub type_name : ConnectorType → Text
type_name ConnectorType.mcp = units "mcp"
type_name ConnectorType.api = units "api"
type_name ConnectorType.oauth = units "oauth"
type_name ConnectorType.webhook = units "webhook"

pub matches_search : (Text → Text) → UnifiedConnector → Text → Bool
matches_search lower c query =
    if is_empty (trim query)
    then true
    else includes
        (lower (
          join (units " ") (
            c.entry.name
            ∷ (c.entry.description
                ∷ (category_name c.entry.category
                    ∷ (type_name c.entry.connector_type ∷ c.entry.capabilities))))))
        (lower (trim query))

pub data FilterChip : Type 0 where
  all connected ready coming_soon mcp api oauth webhook automation ai productivity developer
        data_value google :
      FilterChip

-- The chip as the code writes it.
abbrev pub chip_name : FilterChip → Text
chip_name FilterChip.all = units "all"
chip_name FilterChip.connected = units "connected"
chip_name FilterChip.ready = units "ready"
chip_name FilterChip.coming_soon = units "coming_soon"
chip_name FilterChip.mcp = units "mcp"
chip_name FilterChip.api = units "api"
chip_name FilterChip.oauth = units "oauth"
chip_name FilterChip.webhook = units "webhook"
chip_name FilterChip.automation = units "automation"
chip_name FilterChip.ai = units "ai"
chip_name FilterChip.productivity = units "productivity"
chip_name FilterChip.developer = units "developer"
chip_name FilterChip.data_value = units "data"
chip_name FilterChip.google = units "google"

pub matches_filter : UnifiedConnector → FilterChip → Bool
matches_filter c FilterChip.all = true
matches_filter c FilterChip.connected = is_connected c
matches_filter c FilterChip.ready = is_ready_to_connect c
matches_filter c FilterChip.coming_soon = is_coming_soon c
matches_filter c FilterChip.mcp = type_name c.entry.connector_type == chip_name FilterChip.mcp
matches_filter c FilterChip.api = type_name c.entry.connector_type == chip_name FilterChip.api
matches_filter c FilterChip.oauth = type_name c.entry.connector_type == chip_name FilterChip.oauth
matches_filter c FilterChip.webhook =
    type_name c.entry.connector_type == chip_name FilterChip.webhook
matches_filter c filter = category_name c.entry.category == chip_name filter

pub data StatusBucket : Type 0 where
  connected needs_verification needs_setup not_built : StatusBucket

pub status_bucket : UnifiedConnector → StatusBucket
status_bucket c =
    if not c.entry.implemented
    then StatusBucket.not_built
    else if c.entry.status == ConnectorStatusValue.connected
    then StatusBucket.connected
    else if c.entry.status == ConnectorStatusValue.configured
        || c.entry.status == ConnectorStatusValue.error
    then StatusBucket.needs_verification
    else StatusBucket.needs_setup

pub is_system_infrastructure : UnifiedConnector → Bool
is_system_infrastructure c = elim c.entry.kind [
  | user_connector ↦ false
  | system_infrastructure ↦ true
]

pub is_user_connector : UnifiedConnector → Bool
is_user_connector c = not (is_system_infrastructure c)
