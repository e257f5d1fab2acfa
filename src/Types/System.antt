-- ===== src/Types/System.antt =====
-- Health and readiness: frontend/src/lib/types.ts.
use agent_os_test.Prelude.{ℕ, Option, List, Text}

pub record HealthResponse : Type 0 where
  pub status : Text
  pub service : Text
  pub environment : Text
  pub llm_provider : Text
  pub max_parallel : ℕ
  pub backends : List (Text × Text)
  pub persistence : Option Text
  pub warnings : Option (List Text)

pub data ReadinessStatus : Type 0 where
  ready degraded : ReadinessStatus

pub data CheckStatus : Type 0 where
  ok unconfigured unavailable : CheckStatus

pub record ReadinessResponse : Type 0 where
  pub status : ReadinessStatus
  pub checks : List (Text × CheckStatus)
