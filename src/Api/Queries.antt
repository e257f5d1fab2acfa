-- ===== src/Api/Queries.antt =====
-- The reads of the backend: the `useQuery` hooks of frontend/src/lib/api/queries.ts, and the three
-- methods of `api` in frontend/src/lib/api/client.ts. A payload is the JSON value that it is when
-- it is sent. `encodeURIComponent` is a parameter.
pub mod Mutations
pub mod Guards
pub mod Sends
pub mod Refreshes
mod Tests
use agent_os_test.Prelude.{
  ℕ, Bool, ◌&&◌, not, true, false, Option, none, some, List, [], ◌∷◌, ◌++◌, Text, units, is_empty,
}
use agent_os_test.Json.{Value, str}
use agent_os_test.Api.Client.{Method, get, post, delete, RequestOptions}

-- A path and the options of the request.
abbrev pub Call : Type 0
Call = Text × RequestOptions

abbrev pub no_options : RequestOptions
no_options = record { method = none; body = none; timeout_ms = none; skip_auth = none }

abbrev pub unauthenticated : RequestOptions
unauthenticated = record no_options { skip_auth = some true }

abbrev pub within : ℕ → RequestOptions
within ms = record no_options { timeout_ms = some ms }

-- `api.get`, `api.post` and `api.delete`
pub api_get : Text → RequestOptions → Call
api_get path opts = (path, record opts { method = some get })

pub api_post : Text → Option Value → RequestOptions → Call
api_post path body opts = (path, record opts { method = some post; body = body })

pub api_delete : Text → RequestOptions → Call
api_delete path opts = (path, record opts { method = some delete })

pub data Retry : Type 0 where
  never : Retry
  times : ℕ → Retry

-- A part of a key is a JSON value or `undefined`.
abbrev pub Key : Type 0
Key = List (Option Value)

pub record Query : Type 0 where
  pub query_key : Key
  pub call : Call
  pub enabled : Bool
  pub refetch_interval : Option ℕ
  pub retry : Option Retry

abbrev pub word : Text → Option Value
word s = some (str s)

-- A part of a key that may be `undefined`, and such a part in a template.
abbrev pub part : Option Text → Option Value
part none = none
part (some s) = some (str s)

abbrev pub in_template : Option Text → Text
in_template none = units "undefined"
in_template (some s) = s

-- `Boolean(id)`
abbrev pub given : Option Text → Bool
given none = false
given (some s) = not (is_empty s)

-- `options?.enabled ?? true`
abbrev pub or_true : Option Bool → Bool
or_true none = true
or_true (some b) = b

pub use_health : Query
use_health = record {
  query_key = word (units "health") ∷ [];
  call = api_get (units "/health") unauthenticated;
  enabled = true;
  refetch_interval = some 30000;
  retry = some (times 1);
}

pub use_readiness : Query
use_readiness = record {
  query_key = word (units "readiness") ∷ [];
  call = api_get (units "/ready") unauthenticated;
  enabled = true;
  refetch_interval = some 30000;
  retry = some (times 1);
}

-- The options of the caller replace what they name.
pub use_task : Option Text → (Query → Query) → Query
use_task task_id options = options (record {
  query_key = word (units "task") ∷ (part task_id ∷ []);
  call = api_get (units "/api/v1/tasks/" ++ in_template task_id) no_options;
  enabled = given task_id;
  refetch_interval = none;
  retry = some never;
})

pub use_memory_search : Value → Option Bool → Query
use_memory_search query enabled = record {
  query_key = word (units "memory") ∷ (word (units "search") ∷ (some query ∷ []));
  call = api_post (units "/api/v1/memory/search") (some query) no_options;
  enabled = or_true enabled;
  refetch_interval = none;
  retry = none;
}

pub use_memory_get : Option Text → Query
use_memory_get memory_id = record {
  query_key = word (units "memory") ∷ (part memory_id ∷ []);
  call = api_get (units "/api/v1/memory/" ++ in_template memory_id) no_options;
  enabled = given memory_id;
  refetch_interval = none;
  retry = none;
}

pub use_tools : Query
use_tools = record {
  query_key = word (units "tools") ∷ [];
  call = api_get (units "/api/v1/tools") no_options;
  enabled = true;
  refetch_interval = none;
  retry = none;
}

pub use_tool_audit : Query
use_tool_audit = record {
  query_key = word (units "tools") ∷ (word (units "audit") ∷ []);
  call = api_get (units "/api/v1/tools/audit") no_options;
  enabled = true;
  refetch_interval = some 20000;
  retry = none;
}

pub use_workflow_run : Option Text → Query
use_workflow_run run_id = record {
  query_key = word (units "workflow-run") ∷ (part run_id ∷ []);
  call = api_get (units "/api/v1/workflows/runs/" ++ in_template run_id) no_options;
  enabled = given run_id;
  refetch_interval = none;
  retry = some never;
}

pub use_runtime_execution : Option Text → Query
use_runtime_execution execution_id = record {
  query_key = word (units "runtime-execution") ∷ (part execution_id ∷ []);
  call = api_get (units "/api/v1/runtime/executions/" ++ in_template execution_id) no_options;
  enabled = given execution_id;
  refetch_interval = none;
  retry = some never;
}

pub use_runtime_status : (Text → Text) → Text → Text → Option Bool → Query
use_runtime_status encode provider workflow enabled = record {
  query_key = word (units "runtime-status") ∷ (word provider ∷ (word workflow ∷ []));
  call =
      api_get
        (units "/api/v1/runtime/status?provider="
          ++ (encode provider ++ (units "&workflow=" ++ encode workflow)))
        no_options;
  enabled = or_true enabled && (not (is_empty provider) && not (is_empty workflow));
  refetch_interval = some 15000;
  retry = none;
}

pub use_connector_catalog : Query
use_connector_catalog = record {
  query_key = word (units "connector-catalog") ∷ [];
  call = api_get (units "/api/v1/integrations") unauthenticated;
  enabled = true;
  refetch_interval = some 30000;
  retry = none;
}

pub use_mcp_servers : Query
use_mcp_servers = record {
  query_key = word (units "mcp-servers") ∷ [];
  call = api_get (units "/api/v1/integrations/mcp/servers") unauthenticated;
  enabled = true;
  refetch_interval = some 30000;
  retry = none;
}
