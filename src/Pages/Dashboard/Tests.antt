-- ===== src/Pages/Dashboard/Tests.antt =====
-- The theorem on the two views of the API, at a deployment without durable storage.
use agent_os_test.Prelude.{◌≡◌, ◌↔◌, refl, true, false, none, some, [], units}
use agent_os_test.Types.System.{HealthResponse}
use agent_os_test.Ui.Connection.{QueryResult, online, state_of, degraded}
use agent_os_test.Pages.Dashboard.{api_degraded}
use agent_os_test.Pages.Dashboard.Figures.{IsDegraded, api_degraded-online}

abbrev health : HealthResponse
health = record {
  status = units "ok";
  service = units "api";
  environment = units "staging";
  llm_provider = units "mock";
  max_parallel = 3;
  backends = [];
  persistence = some (units "ephemeral");
  warnings = none;
}

abbrev answered : QueryResult HealthResponse
answered = record { data_value = some health; is_error = false; is_loading = false }

api_degraded-online_example :
    ((api_degraded answered ≡ true) ↔ IsDegraded health)
    × (degraded answered ≡ true → api_degraded answered ≡ true)
    × (state_of answered ≡ online
        → (api_degraded answered ≡ true) ↔ (health.persistence ≡ some (units "ephemeral")))
api_degraded-online_example = api_degraded-online answered health refl
