-- ===== src/Api/Queries/Refreshes.antt =====
-- Which queries a mutation refreshes.
use agent_os_test.Prelude.{
  ◌⊎◌, inl, inr, ◌≡◌, ◌≢◌, refl, sym, ap, Bool, Option, some, List, [], ◌∷◌, Text, units,
}
use agent_os_test.Json.{Value, str}
use agent_os_test.Api.Client.{string_field}
use agent_os_test.Api.Queries.{
  Key, use_connector_catalog, use_mcp_servers, use_memory_search, use_memory_get, use_task,
}
use agent_os_test.Api.Queries.Mutations.{
  CacheEffect, set_query_data, invalidate, use_create_task, use_test_integration,
  use_execute_integration, use_oauth_disconnect, use_create_mcp_server, use_test_mcp_server,
  use_delete_mcp_server, use_write_memory, use_delete_memory,
}

-- An invalidation reaches the queries whose key begins with its key.
abbrev pub Begins : Key → Key → Type 0
Begins [] k = Unit
Begins (p ∷ a) [] = ⊥
Begins (p ∷ a) (q ∷ k) = (p ≡ q) × Begins a k

abbrev pub Refreshed : Key → List CacheEffect → Type 0
Refreshed k [] = ⊥
Refreshed k (set_query_data a v ∷ es) = Refreshed k es
Refreshed k (invalidate a ∷ es) = Begins a k ⊎ Refreshed k es

-- A connector that is tested, executed or disconnected refreshes the catalog, a server that is
-- created, tested or deleted the list of servers, and a memory that is written or deleted every
-- search.
pub on_success-Refreshed :
    (payload query : Value) (id : Text) (switch : Option Bool) (result : Option Value)
    → Refreshed use_connector_catalog.query_key ((use_test_integration id).on_success result)
      × Refreshed use_connector_catalog.query_key
          ((use_execute_integration payload).on_success result)
      × Refreshed use_connector_catalog.query_key ((use_oauth_disconnect id).on_success result)
      × Refreshed use_mcp_servers.query_key ((use_create_mcp_server payload).on_success result)
      × Refreshed use_mcp_servers.query_key ((use_test_mcp_server id).on_success result)
      × Refreshed use_mcp_servers.query_key ((use_delete_mcp_server id).on_success result)
      × Refreshed
          (use_memory_search query switch).query_key
          ((use_write_memory payload).on_success result)
      × Refreshed
          (use_memory_search query switch).query_key
          ((use_delete_memory id).on_success result)
unfolding use_connector_catalog use_mcp_servers use_memory_search use_test_integration
    use_execute_integration use_oauth_disconnect use_create_mcp_server use_test_mcp_server
    use_delete_mcp_server use_write_memory use_delete_memory
on_success-Refreshed payload query id switch result = (
  inl (refl, tt),
  inl (refl, tt),
  inl (refl, tt),
  inl (refl, tt),
  inl (refl, tt),
  inl (refl, tt),
  inl (refl, (refl, tt)),
  inl (refl, (refl, tt)),
)

text_of : Option Value → Text
text_of (some (str s)) = s
text_of _ = []

-- If a memory is deleted whose id is not the word `search`, the query of that one memory is not
-- refreshed.
pub use_delete_memory-stale :
    (id : Text) (result : Option Value)
    → id ≢ units "search"
    → ¬ Refreshed (use_memory_get (some id)).query_key ((use_delete_memory id).on_success result)
unfolding use_memory_get use_delete_memory text_of
use_delete_memory-stale id result other r = elim r [
  | inl (_, (same, _)) ↦ other (sym (ap text_of same))
  | inr none_left ↦ none_left
]

-- If a task is created and the answer has an id, the answer is what the query of that task has.
pub use_create_task-key :
    (payload task : Value) (id : Text)
    → string_field (units "id") (some task) ≡ some id
    → (use_create_task payload).on_success (some task)
      ≡ set_query_data (use_task (some id) (λ q. q)).query_key task ∷ []
unfolding use_create_task use_task
use_create_task-key payload task id named = rw named refl
