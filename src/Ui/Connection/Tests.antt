-- ===== src/Ui/Connection/Tests.antt =====
-- The theorem on the connection, at a deployment that is well.
use agent_os_test.Prelude.{false, none, some, [], units}
use agent_os_test.Types.System.{HealthResponse}
use agent_os_test.Ui.Connection.{QueryResult}

abbrev health : HealthResponse
health = record {
  status = units "ok";
  service = units "api";
  environment = units "production";
  llm_provider = units "mock";
  max_parallel = 3;
  backends = [];
  persistence = some (units "durable");
  warnings = none;
}

abbrev answered : QueryResult HealthResponse
answered = record { data_value = some health; is_error = false; is_loading = false }
