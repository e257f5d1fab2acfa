-- ===== src/Types/Tasks.antt =====
-- Tasks, orchestrations and autonomous runs: frontend/src/lib/types.ts.
use agent_os_test.Prelude.{ℕ, Bool, Option, List, Text}

pub data TaskStatus : Type 0 where
  pending running completed failed : TaskStatus

pub data TaskPriority : Type 0 where
  low normal high critical : TaskPriority

pub record Task : Type 0 where
  pub id : Text
  pub objective : Text
  pub priority : TaskPriority
  pub status : TaskStatus
  pub project_id : Option Text
  pub created_at : Text

pub record TaskCreate : Type 0 where
  pub objective : Text
  pub priority : Option TaskPriority
  pub project_id : Option (Option Text)

pub data AgentRole : Type 0 where
  researcher builder reviewer : AgentRole

pub record AgentJob : Type 0 where
  pub id : Text
  pub role : AgentRole
  pub instruction : Text

pub record ExecutionPlan : Type 0 where
  pub jobs : List AgentJob

pub record AgentResult : Type 0 where
  pub job_id : Text
  pub role : AgentRole
  pub success : Bool
  pub output : Text

pub record VerificationResultOrchestration : Type 0 where
  pub passed : Bool
  pub issues : List Text

pub record OrchestrationRequest : Type 0 where
  pub objective : Text
  pub context : Option (Option Text)

pub record OrchestrationResult : Type 0 where
  pub objective : Text
  pub plan : ExecutionPlan
  pub results : List AgentResult
  pub verification : VerificationResultOrchestration

pub record AutonomousRunRequest : Type 0 where
  pub objective : Text
  pub context : Option (Option Text)
  pub project_id : Option (Option Text)
  pub task_id : Option (Option Text)
  pub session_id : Option (Option Text)

pub record SpecialistJob : Type 0 where
  pub name : Text
  pub task : Text
  pub system_prompt : Text

pub record SpecialistResult : Type 0 where
  pub name : Text
  pub output : Text
  pub attempts : ℕ
  pub error : Option Text

pub record AutonomousVerification : Type 0 where
  pub approved : Bool
  pub feedback : Text

pub record AutonomousPlan : Type 0 where
  pub jobs : List SpecialistJob

pub record AutonomousRunResult : Type 0 where
  pub objective : Text
  pub plan : AutonomousPlan
  pub results : List SpecialistResult
  pub verification : AutonomousVerification
  pub final_answer : Text
