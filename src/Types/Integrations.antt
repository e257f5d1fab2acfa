-- ===== src/Types/Integrations.antt =====
-- Integration calls and their status: frontend/src/lib/types.ts.
use agent_os_test.Prelude.{ℕ, Bool, Option, List, Text}
use agent_os_test.Json.{Number, Value}

pub record IntegrationRequest : Type 0 where
  pub workflow : Text
  pub payload : Option (List (Text × Value))
  pub correlation_id : Option (Option Text)
  pub timeout_seconds : Option Number

pub record IntegrationResult : Type 0 where
  pub provider : Text
  pub workflow : Text
  pub success : Bool
  pub status_code : Option ℕ
  pub data_value : Value
  pub error : Option Text
  pub correlation_id : Option Text

pub record IntegrationStatus : Type 0 where
  pub provider : Text
  pub name : Text
  pub configured : Bool
  pub requires : List Text
  pub connected : Option Bool
  pub last_check : Option Text
  pub last_check_latency_ms : Option Number
  pub last_check_error : Option Text
  pub last_execution : Option Text
  pub last_execution_success : Option Bool
