-- ===== src/Api/Queries/Guards.antt =====
-- What every request of the hooks has in common, and what keeps a query from being sent.
use agent_os_test.Prelude.{
  ◌≡◌, refl, Bool, true, false, Option, none, some, List, [], ◌∷◌, Text, units, starts_with, All,
}
use agent_os_test.Json.{Value}
use agent_os_test.Api.Client.{Method, get, post, delete, RequestOptions, or_false}
use agent_os_test.Api.Queries.{
  Call, api_get, api_post, api_delete, use_health, use_readiness, use_task, use_memory_search,
  use_memory_get, use_tools, use_tool_audit, use_workflow_run, use_runtime_execution,
  use_runtime_status, use_connector_catalog, use_mcp_servers,
}
use agent_os_test.Api.Queries.Mutations.{
  use_create_task, use_orchestrate, use_autonomous_run, use_memory_context, use_write_memory,
  use_delete_memory, use_execute_tool, use_issue_approval, use_run_workflow, use_resume_workflow,
  use_execute_runtime, use_test_integration, use_execute_integration, use_create_mcp_server,
  use_test_mcp_server, use_oauth_authorize, use_oauth_disconnect, use_delete_mcp_server,
}

-- What a user has chosen or entered.
pub record Input : Type 0 where
  pub payload : Value
  pub id : Text
  pub other_id : Text
  pub chosen : Option Text
  pub switch : Option Bool

-- The requests of all hooks.
abbrev pub calls : (Text → Text) → Input → List Call
calls encode i =
    use_health.call
    ∷ (use_readiness.call
        ∷ ((use_task i.chosen (λ q. q)).call
            ∷ ((use_memory_search i.payload i.switch).call
                ∷ ((use_memory_get i.chosen).call
                    ∷ (use_tools.call
                        ∷ (use_tool_audit.call
                            ∷ ((use_workflow_run i.chosen).call
                                ∷ ((use_runtime_execution i.chosen).call
                                    ∷ ((use_runtime_status encode i.id i.other_id i.switch).call
                                        ∷ (use_connector_catalog.call
                                            ∷ (use_mcp_servers.call
                                                ∷ ((use_create_task i.payload).call
                                                    ∷ ((use_orchestrate i.payload).call
                                                        ∷ ((use_autonomous_run i.payload).call
                                                            ∷ ((use_memory_context i.payload).call
                                                            ∷ ((use_write_memory i.payload).call
                                                            ∷ ((use_delete_memory i.id).call
                                                            ∷ ((use_execute_tool i.payload
                                                            i.chosen).call
                                                            ∷ ((use_issue_approval i.payload).call
                                                            ∷ ((use_run_workflow i.payload).call
                                                            ∷ ((use_resume_workflow i.id
                                                            i.payload).call
                                                            ∷ ((use_execute_runtime i.payload).call
                                                            ∷ ((use_test_integration i.id).call
                                                            ∷ ((use_execute_integration
                                                            i.payload).call
                                                            ∷ ((use_create_mcp_server
                                                            i.payload).call
                                                            ∷ ((use_test_mcp_server i.id).call
                                                            ∷ ((use_oauth_authorize i.id).call
                                                            ∷ ((use_oauth_disconnect i.id).call
                                                            ∷ ((use_delete_mcp_server i.id).call
                                                            ∷ [])))))))))))))))))))))))))))))

abbrev pub is_read : Option Method → Bool
is_read (some get) = true
is_read (some post) = false
is_read (some delete) = false
is_read (some Method.patch) = false
is_read (some Method.put) = false
is_read none = true

-- The path is absolute, the method is named, and a request that may change something does not
-- leave the stored key out.
pub record IsSafe (c : Call) : Type 0 where
  pub absolute : starts_with c.0 (units "/") ≡ true
  pub keyed : is_read c.1.method ≡ false → or_false c.1.skip_auth ≡ false
  pub bodiless : is_read c.1.method ≡ true → c.1.body ≡ none

get-IsSafe :
    (path : Text) (opts : RequestOptions)
    → starts_with path (units "/") ≡ true
    → opts.body ≡ none
    → IsSafe (api_get path opts)
unfolding api_get
get-IsSafe path opts absolute empty = record {
  absolute = absolute;
  keyed = λ h. absurd (cc);
  bodiless = λ _. empty;
}

post-IsSafe :
    (path : Text) (body : Option Value) (opts : RequestOptions)
    → starts_with path (units "/") ≡ true
    → or_false opts.skip_auth ≡ false
    → IsSafe (api_post path body opts)
unfolding api_post
post-IsSafe path body opts absolute keyed = record {
  absolute = absolute;
  keyed = λ _. keyed;
  bodiless = λ h. absurd (cc);
}

delete-IsSafe :
    (path : Text) (opts : RequestOptions)
    → starts_with path (units "/") ≡ true
    → or_false opts.skip_auth ≡ false
    → IsSafe (api_delete path opts)
unfolding api_delete
delete-IsSafe path opts absolute keyed = record {
  absolute = absolute;
  keyed = λ _. keyed;
  bodiless = λ h. absurd (cc);
}

-- Every call of a hook is so, and one by `get` has no body.
pub calls-IsSafe : (encode : Text → Text) (i : Input) → All IsSafe (calls encode i)
unfolding starts_with use_health use_readiness use_task use_memory_search use_memory_get use_tools
    use_tool_audit use_workflow_run use_runtime_execution use_runtime_status use_connector_catalog
    use_mcp_servers use_create_task use_orchestrate use_autonomous_run use_memory_context
    use_write_memory use_delete_memory use_execute_tool use_issue_approval use_run_workflow
    use_resume_workflow use_execute_runtime use_test_integration use_execute_integration
    use_create_mcp_server use_test_mcp_server use_oauth_authorize use_oauth_disconnect
    use_delete_mcp_server
calls-IsSafe encode i = (
  get-IsSafe _ _ refl refl,
  (
    get-IsSafe _ _ refl refl,
    (
      get-IsSafe _ _ refl refl,
      (
        post-IsSafe _ _ _ refl refl,
        (
          get-IsSafe _ _ refl refl,
          (
            get-IsSafe _ _ refl refl,
            (
              get-IsSafe _ _ refl refl,
              (
                get-IsSafe _ _ refl refl,
                (
                  get-IsSafe _ _ refl refl,
                  (
                    get-IsSafe _ _ refl refl,
                    (
                      get-IsSafe _ _ refl refl,
                      (
                        get-IsSafe _ _ refl refl,
                        (
                          post-IsSafe _ _ _ refl refl,
                          (
                            post-IsSafe _ _ _ refl refl,
                            (
                              post-IsSafe _ _ _ refl refl,
                              (
                                post-IsSafe _ _ _ refl refl,
                                (
                                  post-IsSafe _ _ _ refl refl,
                                  (
                                    delete-IsSafe _ _ refl refl,
                                    (
                                      post-IsSafe _ _ _ refl refl,
                                      (
                                        post-IsSafe _ _ _ refl refl,
                                        (
                                          post-IsSafe _ _ _ refl refl,
                                          (
                                            post-IsSafe _ _ _ refl refl,
                                            (
                                              post-IsSafe _ _ _ refl refl,
                                              (
                                                post-IsSafe _ _ _ refl refl,
                                                (
                                                  post-IsSafe _ _ _ refl refl,
                                                  (
                                                    post-IsSafe _ _ _ refl refl,
                                                    (
                                                      post-IsSafe _ _ _ refl refl,
                                                      (
                                                        get-IsSafe _ _ refl refl,
                                                        (
                                                          delete-IsSafe _ _ refl refl,
                                                          (delete-IsSafe _ _ refl refl, tt),
                                                        ),
                                                      ),
                                                    ),
                                                  ),
                                                ),
                                              ),
                                            ),
                                          ),
                                        ),
                                      ),
                                    ),
                                  ),
                                ),
                              ),
                            ),
                          ),
                        ),
                      ),
                    ),
                  ),
                ),
              ),
            ),
          ),
        ),
      ),
    ),
  ),
)
