-- ===== src/I18n/Locales/En/Shell.antt =====
-- The texts of frontend/src/lib/i18n/locales/en.ts: `common`, `language`, `theme`, `nav`,
-- `topbar`, `states`, `errorCodes`, `counts`.
use agent_os_test.Prelude.{[], ◌∷◌}
use agent_os_test.I18n.Catalogue.{Entries, end}
use agent_os_test.I18n.Notation.{texts, groups}

abbrev pub common : Entries
common =
    texts
      (("save", "Save")
        ∷ ("cancel", "Cancel")
        ∷ ("close", "Close")
        ∷ ("delete", "Delete")
        ∷ ("retry", "Retry")
        ∷ ("refresh", "Refresh")
        ∷ ("viewAll", "View all")
        ∷ ("search", "Search")
        ∷ ("loading", "Loading…")
        ∷ ("signIn", "Sign in")
        ∷ ("authenticate", "Authenticate")
        ∷ ("unavailable", "Unavailable")
        ∷ ("offline", "Offline")
        ∷ ("noAccess", "No access")
        ∷ ("yes", "Yes")
        ∷ ("no", "No")
        ∷ ("optional", "Optional")
        ∷ ("required", "Required")
        ∷ ("copy", "Copy")
        ∷ ("copied", "Copied")
        ∷ ("back", "Back")
        ∷ ("next", "Next")
        ∷ ("done", "Done")
        ∷ ("operator", "Operator")
        ∷ ("apiKeyConfigured", "API key configured")
        ∷ ("noApiKeySet", "No API key set")
        ∷ ("connections", "Connections")
        ∷ ("clearSession", "Clear session")
        ∷ ("allOutcomes", "All outcomes")
        ∷ ("allScopes", "All scopes")
        ∷ ("allIntegrations", "All integrations")
        ∷ ("success", "Success")
        ∷ ("failed", "Failed")
        ∷ ("approvalRequired", "Approval required")
        ∷ ("selectTool", "Select a tool…")
        ∷ ("approvedBy", "Approved by")
        ∷ ("sessionGrants", "This session's grants")
        ∷ ("sessionTasks", "This session's tasks")
        ∷ ("events", "Events")
        ∷ ("priorityLow", "Low")
        ∷ ("priorityNormal", "Normal")
        ∷ ("priorityHigh", "High")
        ∷ ("priorityCritical", "Critical")
        ∷ ("notConfigured", "Not configured")
        ∷ ("saveConfiguration", "Save configuration")
        ∷ ("appearance", "Appearance")
        ∷ ("about", "About")
        ∷ ("displayName", "Display name")
        ∷ ("none", "None")
        ∷ ("executionStages", "Execution stages")
        ∷ ("finalAnswer", "Final answer")
        ∷ ("finalSynthesis", "Final synthesis")
        ∷ ("reviewerIssues", "Reviewer issues")
        ∷ ("autonomousSpecialists", "Autonomous specialists")
        ∷ ("resumePausedSteps", "Resume paused steps")
        ∷ ("idempotencyKey", "Idempotency key")
        ∷ [])
      end

abbrev pub language : Entries
language =
    texts
      (("label", "Language")
        ∷ ("switchTo", "Switch to {language}")
        ∷ ("current", "Current language: {language}")
        ∷ [])
      end

abbrev pub theme : Entries
theme =
    texts
      (("label", "Theme")
        ∷ ("change", "Change theme")
        ∷ ("dark", "Dark")
        ∷ ("light", "Light")
        ∷ ("system", "System")
        ∷ [])
      end

abbrev pub nav : Entries
nav =
    groups
      ((
        "groups",
        texts
            (("overview", "Overview")
              ∷ ("execution", "Execution")
              ∷ ("workflows", "Workflows")
              ∷ ("knowledge", "Knowledge")
              ∷ ("operations", "Operations")
              ∷ ("system", "System")
              ∷ [])
            end,
      )
        ∷ (
          "items",
          texts
              (("dashboard", "Dashboard")
                ∷ ("productOverview", "Product Overview")
                ∷ ("tasks", "Tasks")
                ∷ ("orchestrate", "Orchestrate")
                ∷ ("autonomousRuns", "Autonomous Runs")
                ∷ ("agents", "Agents")
                ∷ ("workflows", "Workflows")
                ∷ ("workflowRuns", "Workflow Runs")
                ∷ ("approvals", "Approvals")
                ∷ ("memory", "Memory")
                ∷ ("runtime", "Runtime")
                ∷ ("tools", "Tools")
                ∷ ("integrations", "Integrations")
                ∷ ("auditLogs", "Audit Logs")
                ∷ ("health", "Health")
                ∷ ("settings", "Settings")
                ∷ ("privacy", "Privacy & Policy")
                ∷ [])
              end,
        )
        ∷ [])
      (texts
        (("openNavigation", "Open navigation")
          ∷ ("expandSidebar", "Expand sidebar")
          ∷ ("collapseSidebar", "Collapse sidebar")
          ∷ [])
        end)

abbrev pub topbar : Entries
topbar =
    texts
      (("searchPlaceholder", "Search or jump to…")
        ∷ ("apiOnline", "API online")
        ∷ ("apiOffline", "API offline")
        ∷ ("connecting", "Connecting")
        ∷ ("degraded", "Degraded")
        ∷ ("keyNeeded", "Key needed")
        ∷ ("checkingApi", "Checking the API…")
        ∷ ("apiUnreachable", "The API could not be reached. Check the base URL in Settings.")
        ∷ ("storageEphemeral", "Storage is ephemeral — data is lost when the API restarts.")
        ∷ ("nonProduction", "Non-production deployment ({environment})")
        ∷ [])
      end

abbrev pub states : Entries
states =
    texts
      (("loading", "Loading…")
        ∷ ("nothingYet", "Nothing yet this session.")
        ∷ ("somethingWentWrong", "Something went wrong")
        ∷ ("unexpectedError", "Unexpected error")
        ∷ ("timedOut", "The request timed out")
        ∷ ("cantReachApi", "Can't reach the API")
        ∷ ("networkHint", "Check your network or API configuration.")
        ∷ ("tried", "Tried: {url}")
        ∷ ("notFound", "Not found")
        ∷ ("authRequiredTitle", "Operator authentication required")
        ∷ ("authRequiredBody", "This view becomes available after authentication — {detail}")
        ∷ ("serviceUnavailableTitle", "Service temporarily unavailable")
        ∷ ("permissionDeniedTitle", "Permission denied")
        ∷ ("correlationId", "Correlation ID: {id}")
        ∷ [])
      end

abbrev pub error_codes : Entries
error_codes =
    texts
      (("auth_not_configured", "This deployment has no operator key configured.")
        ∷ ("authentication_required", "Sign in with an operator key to continue.")
        ∷ ("authentication_invalid", "That operator key was not accepted.")
        ∷ [])
      end

abbrev pub counts : Entries
counts =
    texts
      (("task_one", "{count} task")
        ∷ ("task_other", "{count} tasks")
        ∷ ("event_one", "{count} event")
        ∷ ("event_other", "{count} events")
        ∷ ("result_one", "{count} result")
        ∷ ("result_other", "{count} results")
        ∷ [])
      end
