-- ===== src/Types/Connectors.antt =====
-- The connector catalog and MCP servers: frontend/src/lib/types.ts.
use agent_os_test.Prelude.{Bool, Option, List, Text}
use agent_os_test.Json.{Number}

pub data ConnectorType : Type 0 where
  mcp api oauth webhook : ConnectorType

pub data ConnectorCategory : Type 0 where
  automation ai developer productivity google data_value other : ConnectorCategory

pub data ConnectorAuthType : Type 0 where
  none api_key oauth2 bearer webhook_secret : ConnectorAuthType

pub data ConnectorStatusValue : Type 0 where
  connected configured needs_setup available error disabled : ConnectorStatusValue

pub data ConnectorKind : Type 0 where
  user_connector system_infrastructure : ConnectorKind

pub data CapabilityRisk : Type 0 where
  read write high_risk : CapabilityRisk

pub record CapabilityDetail : Type 0 where
  pub id : Text
  pub label : Text
  pub risk : CapabilityRisk
  pub requires_approval : Bool

pub record ConnectorEntry : Type 0 where
  pub id : Text
  pub name : Text
  pub description : Text
  pub category : ConnectorCategory
  pub connector_type : ConnectorType
  pub icon : Text
  pub auth_type : ConnectorAuthType
  pub capabilities : List Text
  pub capability_details : List CapabilityDetail
  pub kind : ConnectorKind
  pub provider : Text
  pub popular : Bool
  pub documentation_url : Option Text
  pub implemented : Bool
  pub requires : List Text
  pub status : ConnectorStatusValue
  pub configured : Bool
  pub connected : Option Bool
  pub last_check : Option Text
  pub last_check_latency_ms : Option Number
  pub last_check_error : Option Text
  pub last_execution : Option Text
  pub last_execution_success : Option Bool

pub data McpAuthType : Type 0 where
  none bearer header : McpAuthType

pub record McpCapabilityItem : Type 0 where
  pub name : Text
  pub description : Option Text

pub record McpCapabilities : Type 0 where
  pub tools : List McpCapabilityItem
  pub resources : List McpCapabilityItem
  pub prompts : List McpCapabilityItem

pub record McpServerCreate : Type 0 where
  pub name : Text
  pub endpoint : Text
  pub auth_type : McpAuthType
  pub header_name : Option (Option Text)
  pub secret_value : Option (Option Text)
  pub timeout_seconds : Option Number
  pub enabled : Option Bool

pub record McpServer : Type 0 where
  pub id : Text
  pub name : Text
  pub endpoint : Text
  pub auth_type : McpAuthType
  pub header_name : Option Text
  pub has_secret : Bool
  pub timeout_seconds : Number
  pub enabled : Bool
  pub created_at : Text
  pub connected : Option Bool
  pub last_check : Option Text
  pub last_check_latency_ms : Option Number
  pub last_check_error : Option Text
  pub capabilities : McpCapabilities
