-- ===== src/Api/Queries/Mutations.antt =====
-- The writes to the backend: the `useMutation` hooks of frontend/src/lib/api/queries.ts.
use agent_os_test.Prelude.{Option, none, some, List, [], ◌∷◌, ◌++◌, Text, units}
use agent_os_test.Json.{Value, null, str, obj, end, field}
use agent_os_test.Api.Client.{string_field}
use agent_os_test.Api.Queries.{
  Call, Key, word, part, no_options, within, api_get, api_post, api_delete,
}

-- What `onSuccess` does to the cache of queries.
pub data CacheEffect : Type 0 where
  set_query_data : Key → Value → CacheEffect
  invalidate : Key → CacheEffect

-- The request of a mutation, and `onSuccess` at its result.
pub record Mutation : Type 0 where
  pub call : Call
  pub on_success : Option Value → List CacheEffect

abbrev pub stays : Option Value → List CacheEffect
stays result = []

abbrev pub invalidates : Key → Option Value → List CacheEffect
invalidates key result = invalidate key ∷ []

abbrev pub text_or_null : Option Text → Value
text_or_null none = null
text_or_null (some s) = str s

-- The task that was created, under its id.
abbrev pub keeps_task : Option Value → List CacheEffect
keeps_task none = []
keeps_task (some task) =
    set_query_data (word (units "task") ∷ (part (string_field (units "id") (some task)) ∷ [])) task
    ∷ []

unfoldable pub use_create_task : Value → Mutation
use_create_task payload = record {
  call = api_post (units "/api/v1/tasks") (some payload) no_options;
  on_success = keeps_task;
}

unfoldable pub use_orchestrate : Value → Mutation
use_orchestrate payload = record {
  call = api_post (units "/api/v1/orchestrate") (some payload) (within 120000);
  on_success = stays;
}

unfoldable pub use_autonomous_run : Value → Mutation
use_autonomous_run payload = record {
  call = api_post (units "/api/v1/autonomous/run") (some payload) (within 150000);
  on_success = stays;
}

unfoldable pub use_memory_context : Value → Mutation
use_memory_context query = record {
  call = api_post (units "/api/v1/memory/context") (some query) no_options;
  on_success = stays;
}

unfoldable pub use_write_memory : Value → Mutation
use_write_memory payload = record {
  call = api_post (units "/api/v1/memory") (some payload) no_options;
  on_success = invalidates (word (units "memory") ∷ (word (units "search") ∷ []));
}

unfoldable pub use_delete_memory : Text → Mutation
use_delete_memory memory_id = record {
  call = api_delete (units "/api/v1/memory/" ++ memory_id) no_options;
  on_success = invalidates (word (units "memory") ∷ (word (units "search") ∷ []));
}

unfoldable pub use_execute_tool : Value → Option Text → Mutation
use_execute_tool tool_call approval_id = record {
  call =
      api_post (units "/api/v1/tools/execute")
        (some (
          obj (
            field (units "call") tool_call
              (field (units "approval_id") (text_or_null approval_id) end))))
        no_options;
  on_success = stays;
}

unfoldable pub use_issue_approval : Value → Mutation
use_issue_approval payload = record {
  call = api_post (units "/api/v1/tools/approvals") (some payload) no_options;
  on_success = stays;
}

unfoldable pub use_run_workflow : Value → Mutation
use_run_workflow payload = record {
  call = api_post (units "/api/v1/workflows/run") (some payload) (within 60000);
  on_success = stays;
}

unfoldable pub use_resume_workflow : Text → Value → Mutation
use_resume_workflow run_id approvals = record {
  call =
      api_post (units "/api/v1/workflows/runs/" ++ (run_id ++ units "/resume"))
        (some (obj (field (units "approvals") approvals end))) no_options;
  on_success = stays;
}

unfoldable pub use_execute_runtime : Value → Mutation
use_execute_runtime payload = record {
  call = api_post (units "/api/v1/runtime/execute") (some payload) (within 60000);
  on_success = stays;
}

unfoldable pub use_test_integration : Text → Mutation
use_test_integration provider = record {
  call =
      api_post (units "/api/v1/integrations/" ++ (provider ++ units "/test")) (none) (within 15000);
  on_success = invalidates (word (units "connector-catalog") ∷ []);
}

unfoldable pub use_execute_integration : Value → Mutation
use_execute_integration payload = record {
  call = api_post (units "/api/v1/integrations/execute") (some payload) (within 60000);
  on_success = invalidates (word (units "connector-catalog") ∷ []);
}

unfoldable pub use_create_mcp_server : Value → Mutation
use_create_mcp_server payload = record {
  call = api_post (units "/api/v1/integrations/mcp/servers") (some payload) no_options;
  on_success = invalidates (word (units "mcp-servers") ∷ []);
}

unfoldable pub use_test_mcp_server : Text → Mutation
use_test_mcp_server server_id = record {
  call =
      api_post (units "/api/v1/integrations/mcp/servers/" ++ (server_id ++ units "/test")) (none)
        (within 20000);
  on_success = invalidates (word (units "mcp-servers") ∷ []);
}

unfoldable pub use_oauth_authorize : Text → Mutation
use_oauth_authorize provider = record {
  call =
      api_get (units "/api/v1/integrations/oauth/" ++ (provider ++ units "/authorize")) no_options;
  on_success = stays;
}

unfoldable pub use_oauth_disconnect : Text → Mutation
use_oauth_disconnect provider = record {
  call = api_delete (units "/api/v1/integrations/oauth/" ++ provider) no_options;
  on_success = invalidates (word (units "connector-catalog") ∷ []);
}

unfoldable pub use_delete_mcp_server : Text → Mutation
use_delete_mcp_server server_id = record {
  call = api_delete (units "/api/v1/integrations/mcp/servers/" ++ server_id) no_options;
  on_success = invalidates (word (units "mcp-servers") ∷ []);
}
