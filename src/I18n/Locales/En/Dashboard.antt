-- ===== src/I18n/Locales/En/Dashboard.antt =====
-- The texts of frontend/src/lib/i18n/locales/en.ts: `dashboard`, `status`, `badges`.
use agent_os_test.Prelude.{[], ◌∷◌}
use agent_os_test.I18n.Catalogue.{Entries, end}
use agent_os_test.I18n.Notation.{texts, groups}

abbrev pub dashboard : Entries
dashboard =
    texts
      (("apiStatus", "API status")
        ∷ ("online", "Online")
        ∷ ("offline", "Offline")
        ∷ ("degraded", "Degraded")
        ∷ ("toolsAvailable", "Tools available")
        ∷ ("auditEvents", "Audit events")
        ∷ ("thisSession", "This session")
        ∷ ("sessionHint", "Tasks, runs & executions started here")
        ∷ ("ephemeralHint", "Ephemeral storage — data is lost on restart")
        ∷ ("keyRequiredToList", "Operator key required to {action}")
        ∷ ("notPermittedTo", "This key is not permitted to {action}")
        ∷ ("actionListTools", "list tools")
        ∷ ("actionReadAudit", "read the audit log")
        ∷ ("recentAudit", "Recent audit activity")
        ∷ ("noAuditYet", "No audit events yet")
        ∷ ("auditHint", "Tool executions and approval checks will show up here.")
        ∷ ("quickActions", "Quick actions")
        ∷ ("startOrchestration", "Start orchestration")
        ∷ ("runAutonomous", "Run autonomous objective")
        ∷ ("createTask", "Create a task")
        ∷ ("sessionActivity", "Session activity")
        ∷ ("tasks", "Tasks")
        ∷ ("workflowRuns", "Workflow runs")
        ∷ ("runtimeExecutions", "Runtime executions")
        ∷ ("view", "View")
        ∷ ("heroLead", "Your control centre")
        ∷ (
          "heroBody",
          "Give THYNACT an objective and it plans, verifies and executes — every consequential step gated by policy and written to the audit trail.",
        )
        ∷ ("heroPrimary", "Start orchestration")
        ∷ ("heroSecondary", "See what it does")
        ∷ ("exploreTitle", "Explore")
        ∷ [])
      (groups
        ((
          "explore",
          groups
              ((
                "overview",
                texts
                    (("title", "Product Overview")
                      ∷ (
                        "body",
                        "Every capability that is live today, each one linking to the surface that runs it.",
                      )
                      ∷ [])
                    end,
              )
                ∷ (
                  "integrations",
                  texts
                      (("title", "Connectors")
                        ∷ (
                          "body",
                          "Browse the connector catalogue and see what is connected, waiting on setup, or not built yet.",
                        )
                        ∷ [])
                      end,
                )
                ∷ (
                  "about",
                  texts
                      (("title", "About THYNACT")
                        ∷ (
                          "body", "Why it exists, how work moves through it, and what it holds to.",
                        )
                        ∷ [])
                      end,
                )
                ∷ (
                  "health",
                  texts
                      (("title", "System Health")
                        ∷ (
                          "body",
                          "Live status straight from the backend, including storage durability.",
                        )
                        ∷ [])
                      end,
                )
                ∷ [])
              end,
        )
          ∷ [])
        (texts (("sessionEmptyHint", "Anything you start in this tab appears here.") ∷ []) end))

abbrev pub status : Entries
status =
    texts
      (("LIVE_VALIDATED", "Live validated")
        ∷ ("CONNECTED_NOT_VALIDATED", "Connected, not validated")
        ∷ ("AUTH_REQUIRED", "Authentication required")
        ∷ ("CREDENTIAL_REQUIRED", "Credential required")
        ∷ ("PROVIDER_APPROVAL_REQUIRED", "Provider approval required")
        ∷ ("PLATFORM_CONFIG_REQUIRED", "Platform configuration required")
        ∷ ("STABLE_DOMAIN_REQUIRED", "Stable domain required")
        ∷ ("DEGRADED", "Degraded")
        ∷ ("NOT_IMPLEMENTED", "Not implemented")
        ∷ ("UNAVAILABLE", "Unavailable")
        ∷ ("healthy", "Healthy")
        ∷ ("running", "Running")
        ∷ ("succeeded", "Succeeded")
        ∷ ("failed", "Failed")
        ∷ ("pending", "Pending")
        ∷ ("configured", "Configured")
        ∷ [])
      end

abbrev pub badges : Entries
badges =
    texts
      (("pending", "Pending")
        ∷ ("running", "Running")
        ∷ ("completed", "Completed")
        ∷ ("succeeded", "Succeeded")
        ∷ ("failed", "Failed")
        ∷ ("rejected", "Rejected")
        ∷ ("paused", "Paused")
        ∷ ("skipped", "Skipped")
        ∷ ("waiting_approval", "Waiting approval")
        ∷ ("ok", "Healthy")
        ∷ ("healthy", "Healthy")
        ∷ ("unconfigured", "Unconfigured")
        ∷ ("unavailable", "Unavailable")
        ∷ ("degraded", "Degraded")
        ∷ ("connected", "Connected")
        ∷ ("configured", "Configured")
        ∷ ("needs_setup", "Needs setup")
        ∷ ("available", "Available")
        ∷ ("error", "Error")
        ∷ ("disabled", "Disabled")
        ∷ [])
      end
