-- ===== src/Types/Runtime.antt =====
-- Runtime executions and their status: frontend/src/lib/types.ts.
use agent_os_test.Prelude.{ℕ, Option, List, Text}
use agent_os_test.Json.{Number, Value}

pub data ExecutionStatus : Type 0 where
  pending running succeeded failed rejected : ExecutionStatus

pub record RuntimeRequest : Type 0 where
  pub provider : Text
  pub workflow : Text
  pub payload : Option (List (Text × Value))
  pub idempotency_key : Option (Option Text)
  pub correlation_id : Option (Option Text)
  pub timeout_seconds : Option Number
  pub max_retries : Option ℕ

pub record RuntimeExecution : Type 0 where
  pub id : Text
  pub provider : Text
  pub workflow : Text
  pub status : ExecutionStatus
  pub attempts : ℕ
  pub correlation_id : Option Text
  pub idempotency_key : Option Text
  pub data_value : Value
  pub error : Option Text
  pub created_at : Text
  pub updated_at : Text

pub data CircuitState : Type 0 where
  closed opened : CircuitState

pub record CircuitBreakerStatus : Type 0 where
  pub state : CircuitState
  pub failures : ℕ
  pub recovers_in_seconds : Option Number

pub record RateLimitStatus : Type 0 where
  pub used : ℕ
  pub limit : ℕ
  pub window_seconds : Number

pub record RuntimeStatus : Type 0 where
  pub provider : Text
  pub workflow : Text
  pub circuit_breaker : CircuitBreakerStatus
  pub rate_limit : RateLimitStatus
