-- ===== src/Hub/States.antt =====
-- The three states of a connector, the action it offers and its bucket agree.
use agent_os_test.Prelude.{
  ◌≡◌, refl, ap, suc, length-append, ◌↔◌, ◌⊎◌, inl, inr, ◌+◌, Bool, true, false, some, List, [],
  ◌∷◌, map, length, arith, Bool-cases, is_some, ◌==◌, if◌then◌else◌,
}
use agent_os_test.Types.Connectors.{ConnectorStatusValue, McpServer}
use agent_os_test.Hub.{
  UnifiedConnector, mcp_server_to_connector, server_status, is_connected, is_ready_to_connect,
  is_coming_soon, PrimaryAction, primary_action, StatusBucket, status_bucket, status_has_eq,
  is_oauth,
}

-- The three tests, as the connector stands.
abbrev pub Stands : UnifiedConnector → Bool → Bool → Bool → Type 0
Stands c linked ready soon =
    (is_connected c ≡ linked) × (is_ready_to_connect c ≡ ready) × (is_coming_soon c ≡ soon)

-- A connector is in exactly one of the three states. If it is connected, the action it offers is
-- to manage it and it is in the bucket of the connected; if it is coming soon, it offers nothing
-- to do and is in the bucket of those not built; if it is ready to connect, it offers a test, to
-- connect or to configure, and needs verification or setup.
pub primary_action-agrees :
    (c : UnifiedConnector)
    → (Stands c true false false
        × (primary_action c ≡ PrimaryAction.manage)
        × (status_bucket c ≡ StatusBucket.connected))
      ⊎ ((Stands c false true false
            × ((primary_action c ≡ PrimaryAction.test)
                ⊎ ((primary_action c ≡ PrimaryAction.connect)
                    ⊎ (primary_action c ≡ PrimaryAction.configure)))
            × ((status_bucket c ≡ StatusBucket.needs_verification)
                ⊎ (status_bucket c ≡ StatusBucket.needs_setup)))
          ⊎ (Stands c false false true
              × (primary_action c ≡ PrimaryAction.coming_soon)
              × (status_bucket c ≡ StatusBucket.not_built)))
unfolding is_connected is_ready_to_connect is_coming_soon primary_action status_bucket
primary_action-agrees c = elim (Bool-cases c.entry.implemented) [
  | inl made ↦ elim (Bool-cases (c.entry.status == ConnectorStatusValue.connected)) [
    | inl on ↦ inl (ground arith)
    | inr off ↦ inr (inl (ground arith))
  ]
  | inr unmade ↦ inr (inr (ground arith))
]

-- A connector that is ready to connect offers to be tested exactly if it is a configured server
-- or its credentials await verification, and offers an authorization exactly if it is neither and
-- its type is OAuth.
pub primary_action-ready :
    (c : UnifiedConnector)
    → is_ready_to_connect c ≡ true
    → ((primary_action c ≡ PrimaryAction.test)
        ↔ ((is_some c.mcp_server ≡ true) ⊎ (status_bucket c ≡ StatusBucket.needs_verification)))
      × ((primary_action c ≡ PrimaryAction.connect) ↔ (
          (is_some c.mcp_server ≡ false)
          × (status_bucket c ≡ StatusBucket.needs_setup)
          × (is_oauth c.entry.connector_type ≡ true)))
unfolding is_ready_to_connect is_coming_soon primary_action status_bucket
primary_action-ready c h = (ground arith, ground arith)

length-map {ℓ κ} :
    {A : Type ℓ} {B : Type κ} (f : A → B) (xs : List A) → length (map f xs) ≡ length xs
length-map f [] = refl
length-map f (x ∷ xs) = ap suc (length-map f xs)

server_status-connected :
    (server : McpServer)
    → ((server_status server == ConnectorStatusValue.connected) ≡ true)
      ↔ ((server.enabled ≡ true) × (server.connected ≡ some true))
server_status-connected server =
    ground (arith, status_has_eq.is_same_iff (server_status server) ConnectorStatusValue.connected)

-- A configured server is never shown as coming soon. It is shown as connected exactly if it is
-- enabled and its last check succeeded, and it offers to be managed then and to be tested
-- otherwise. No capability of it has a risk level, and each tool, resource and prompt that it
-- reports is listed.
pub mcp_server_to_connector_lem :
    (server : McpServer)
    → let c = mcp_server_to_connector server in
      (is_coming_soon c ≡ false)
      × ((is_connected c ≡ true) ↔ ((server.enabled ≡ true) × (server.connected ≡ some true)))
      × (primary_action c ≡ (if is_connected c then PrimaryAction.manage else PrimaryAction.test))
      × (c.entry.capability_details ≡ [])
      × (length c.entry.capabilities
          ≡ length server.capabilities.tools
            + (length server.capabilities.resources + length server.capabilities.prompts))
unfolding mcp_server_to_connector is_connected is_coming_soon primary_action
mcp_server_to_connector_lem server = (
  refl,
  server_status-connected server,
  refl,
  refl,
  omega (arith, length-append {0}, length-map {0, 0}),
)
