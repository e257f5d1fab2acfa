-- ===== src/Types/Workflows.antt =====
-- Workflow definitions and runs: frontend/src/lib/types.ts.
use agent_os_test.Prelude.{ℕ, Option, List, Text}
use agent_os_test.Json.{Number, Value}

pub data StepType : Type 0 where
  noop tool agent integration : StepType

pub data StepStatus : Type 0 where
  pending running completed failed skipped waiting_approval : StepStatus

pub data WorkflowStatus : Type 0 where
  pending running paused completed failed : WorkflowStatus

pub record WorkflowStep : Type 0 where
  pub id : Text
  pub type : StepType
  pub depends_on : List Text
  pub input : List (Text × Value)
  pub condition_key : Option (Option Text)
  pub condition_equals : Option Value
  pub max_retries : ℕ
  pub timeout_seconds : Number

pub record WorkflowDefinition : Type 0 where
  pub id : Text
  pub name : Text
  pub steps : List WorkflowStep

pub record StepRun : Type 0 where
  pub step_id : Text
  pub status : StepStatus
  pub attempts : ℕ
  pub output : Value
  pub error : Option Text
  pub approval_id : Option Text

pub record WorkflowRun : Type 0 where
  pub id : Text
  pub workflow_id : Text
  pub status : WorkflowStatus
  pub context : List (Text × Value)
  pub steps : List (Text × StepRun)
