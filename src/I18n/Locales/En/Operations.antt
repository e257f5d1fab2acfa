-- ===== src/I18n/Locales/En/Operations.antt =====
-- The texts of frontend/src/lib/i18n/locales/en.ts: `pages.runtime`, `pages.tools`,
-- `pages.audit`, `pages.health`, `pages.settings`, `pages.notFound`, `pages.privacy`.
use agent_os_test.Prelude.{[], ◌∷◌}
use agent_os_test.I18n.Catalogue.{Entries, end}
use agent_os_test.I18n.Notation.{texts}

abbrev pub runtime : Entries
runtime =
    texts
      (("title", "Runtime")
        ∷ (
          "description",
          "Execute provider-backed workflows with retries, idempotency, and correlation tracking.",
        )
        ∷ ("lookupPlaceholder", "Paste an execution ID")
        ∷ ("emptyTitle", "No executions triggered yet")
        ∷ [])
      end

abbrev pub tools : Entries
tools =
    texts
      (("title", "Tools")
        ∷ (
          "description",
          "Browse the tool registry, issue trusted (single-use) approvals for write/high-risk tools, and execute them safely.",
        )
        ∷ ("emptyTitle", "No tools registered")
        ∷ ("approvalPlaceholder", "Required for write/high-risk tools")
        ∷ ("executing", "Executing…")
        ∷ [])
      end

abbrev pub audit : Entries
audit =
    texts
      (("title", "Audit Logs")
        ∷ ("description", "Every tool execution and approval check, most recent first.")
        ∷ ("filterPlaceholder", "Filter by tool…")
        ∷ ("tableView", "Table view")
        ∷ ("timelineView", "Timeline view")
        ∷ ("emptyTitle", "No matching audit events")
        ∷ ("auditEvent", "Audit event")
        ∷ ("copyCorrelationId", "Copy correlation ID")
        ∷ [])
      end

abbrev pub health : Entries
health =
    texts
      (("title", "System Health")
        ∷ ("description", "Live status straight from the backend's /health and /ready endpoints.")
        ∷ ("status", "Status")
        ∷ ("service", "Service")
        ∷ ("environment", "Environment")
        ∷ ("llmProvider", "LLM provider")
        ∷ ("storage", "Storage")
        ∷ ("overall", "Overall")
        ∷ [])
      end

abbrev pub settings : Entries
settings =
    texts
      (("title", "Settings")
        ∷ (
          "description",
          "Local, frontend-only configuration. Nothing here is sent anywhere except the THYNACT API you point it at.",
        )
        ∷ ("apiKeyPlaceholder", "Enter your THYNACT API key")
        ∷ ("apiConnection", "API connection")
        ∷ (
          "apiKeyNote",
          "The API key is kept in sessionStorage — it is cleared automatically when this tab closes and is never written to disk or logs. Prefer the server-side orchestration proxy in production; this form is for local development and trusted operator sessions.",
        )
        ∷ ("apiBaseUrl", "API base URL")
        ∷ ("apiKeyLabel", "API key (X-API-Key)")
        ∷ ("clear", "Clear")
        ∷ [])
      end

abbrev pub not_found : Entries
not_found =
    texts
      (("title", "Page not found")
        ∷ ("description", "This screen doesn't exist, or it moved.")
        ∷ [])
      end

abbrev pub privacy : Entries
privacy =
    texts
      (("title", "Privacy & Policy")
        ∷ (
          "description",
          "What THYNACT stores, where it goes, and the rules the system holds itself to.",
        )
        ∷ ("lastUpdated", "Last updated {date}")
        ∷ [])
      end
