-- ===== src/I18n/Locales/En/Integrations.antt =====
-- The texts of frontend/src/lib/i18n/locales/en.ts: `pages.integrations`.
use agent_os_test.Prelude.{[], ◌∷◌}
use agent_os_test.I18n.Catalogue.{Entries, end}
use agent_os_test.I18n.Notation.{texts, groups}

abbrev pub integrations : Entries
integrations =
    texts
      (("title", "THYNACT Integrations")
        ∷ ("description", "Connect intelligence to the tools that make things happen.")
        ∷ ("emptyTitle", "No integrations connected yet.")
        ∷ ("emptyBody", "Connect one below, or add an MCP server to get started.")
        ∷ ("searchPlaceholder", "Search integrations…")
        ∷ ("noMatchTitle", "No integrations match your search")
        ∷ ("noMatchBody", "Try a different term or clear the filters.")
        ∷ ("addMcpServer", "Add MCP server")
        ∷ ("currentlyIntegrated", "Currently integrated")
        ∷ ("readyToConnect", "Ready to connect")
        ∷ ("comingSoon", "Coming soon")
        ∷ ("all", "All")
        ∷ ("connected", "Connected")
        ∷ (
          "operatorAccessRequired",
          "Operator access required to connect, configure, or test integrations — the catalog below is still browsable.",
        )
        ∷ [])
      (groups
        ((
          "actions",
          texts
              (("test", "Test")
                ∷ ("testConnection", "Test connection")
                ∷ ("testFailed", "Test connection failed")
                ∷ ("manage", "Manage")
                ∷ ("learnMore", "Learn more")
                ∷ ("connect", "Connect {name}")
                ∷ ("configure", "Configure")
                ∷ ("configureWebhook", "Configure webhook")
                ∷ ("disconnect", "Disconnect")
                ∷ ("execute", "Execute")
                ∷ [])
              end,
        )
          ∷ (
            "detail",
            texts
                ((
                  "catalogOnly",
                  "Catalog only — this connector isn't built yet. It describes what THYNACT could support; no credentials are collected and no connection is possible until it's implemented.",
                )
                  ∷ ("requiresSetupPrefix", "Requires setup. This connector needs")
                  ∷ ("requiresSetupSuffix", "configured on the backend before it can connect.")
                  ∷ ("authorityTitle", "What connecting this authorises")
                  ∷ (
                    "authorityBody",
                    "Declared capabilities. These describe the authority a connection would carry — not that every one is implemented yet.",
                  )
                  ∷ ("canRead", "Can read")
                  ∷ ("canChange", "Can change")
                  ∷ ("needsApproval", "Needs your approval")
                  ∷ (
                    "needsApprovalBody",
                    "THYNACT can prepare these, but cannot carry them out on its own.",
                  )
                  ∷ (
                    "mcpUnmapped",
                    "Tools discovered from this MCP server are not mapped to canonical capabilities. An unknown tool is denied until it is mapped — a server does not get to declare its own risk level.",
                  )
                  ∷ ("systemInfrastructure", "System infrastructure")
                  ∷ (
                    "systemInfrastructureBody",
                    "Part of THYNACT's own running system, not an account you connect. Shown for diagnostics.",
                  )
                  ∷ ("authType", "Auth type")
                  ∷ ("lastCheck", "Last check")
                  ∷ ("latency", "Latency")
                  ∷ ("lastError", "Last error")
                  ∷ ("lastExecution", "Last execution")
                  ∷ ("never", "Never")
                  ∷ ("docs", "Docs")
                  ∷ ("capabilities", "Capabilities")
                  ∷ ("plannedCapabilities", "Planned capabilities")
                  ∷ ("tools", "Tools")
                  ∷ ("resources", "Resources")
                  ∷ ("prompts", "Prompts")
                  ∷ (
                    "noCapabilitiesYet",
                    "No capabilities discovered yet — run a connection test to refresh.",
                  )
                  ∷ ("executeWorkflow", "Execute a workflow")
                  ∷ ("webhookWorkflow", "Webhook workflow")
                  ∷ ("payloadJson", "Payload (JSON)")
                  ∷ ("payloadInvalid", "Payload must be valid JSON")
                  ∷ ("success", "Success")
                  ∷ ("failed", "Failed")
                  ∷ ("disconnectNamed", "Disconnect {name}?")
                  ∷ ("disconnectMcp", "Disconnect this MCP server?")
                  ∷ (
                    "disconnectOAuthBody",
                    "This forgets the stored account connection. You can reauthorize at any time.",
                  )
                  ∷ (
                    "disconnectMcpBody",
                    "This removes the server configuration. This cannot be undone.",
                  )
                  ∷ [])
                end,
          )
          ∷ [])
        (texts
          (("browseTitle", "Browse connectors")
            ∷ (
              "browseBody",
              "Every entry here is a real catalog record with its live state. Protocol names (MCP, API, OAuth, webhook) are searchable.",
            )
            ∷ ("allStatuses", "All")
            ∷ ("allCategories", "All categories")
            ∷ ("showingCount", "Showing {shown} of {total} connectors")
            ∷ [])
          (groups
            ((
              "buckets",
              groups
                  ((
                    "connected",
                    texts
                        (("label", "Connected")
                          ∷ ("hint", "Verified against the real provider.")
                          ∷ [])
                        end,
                  )
                    ∷ (
                      "needs_verification",
                      texts
                          (("label", "Needs verification")
                            ∷ (
                              "hint",
                              "Credentials are set but have not been proven to work. Run a test.",
                            )
                            ∷ [])
                          end,
                    )
                    ∷ (
                      "needs_setup",
                      texts
                          (("label", "Needs setup")
                            ∷ ("hint", "Built and ready — waiting on credentials or authorization.")
                            ∷ [])
                          end,
                    )
                    ∷ (
                      "not_built",
                      texts
                          (("label", "Not built yet")
                            ∷ ("hint", "Catalog metadata only. There is no adapter behind these.")
                            ∷ [])
                          end,
                    )
                    ∷ [])
                  end,
            )
              ∷ (
                "categories",
                texts
                    (("ai", "AI")
                      ∷ ("automation", "Automation")
                      ∷ ("productivity", "Productivity")
                      ∷ ("google", "Google")
                      ∷ ("developer", "Developer")
                      ∷ ("data", "Data")
                      ∷ ("other", "Other")
                      ∷ [])
                    end,
              )
              ∷ [])
            end)))
