-- ===== src/Types/Tools.antt =====
-- Tools, approvals and the audit: frontend/src/lib/types.ts.
use agent_os_test.Prelude.{Bool, Option, List, Text}
use agent_os_test.Json.{Value}

pub data ToolRisk : Type 0 where
  read write high_risk : ToolRisk

pub record ToolInfo : Type 0 where
  pub name : Text
  pub description : Text
  pub risk : ToolRisk

pub record ToolCall : Type 0 where
  pub tool : Text
  pub arguments : List (Text × Value)

pub record ToolExecutionResult : Type 0 where
  pub tool : Text
  pub success : Bool
  pub risk : ToolRisk
  pub output : Value
  pub error : Option Text
  pub approval_required : Bool
  pub approval_id : Option Text

pub record ApprovalGrant : Type 0 where
  pub approval_id : Text
  pub tool : Text
  pub approved_by : Text
  pub reason : Option Text

pub record ToolAuditEvent : Type 0 where
  pub timestamp : Text
  pub tool : Text
  pub success : Bool
  pub risk : Text
  pub approval_required : Bool
  pub error : Option Text
  pub correlation_id : Option (Option Text)
