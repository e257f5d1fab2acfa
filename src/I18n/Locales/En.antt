-- ===== src/I18n/Locales/En.antt =====
-- The catalogue of frontend/src/lib/i18n/locales/en.ts.
pub mod Shell
pub mod Dashboard
pub mod Capabilities
pub mod Overview
pub mod Runs
pub mod Integrations
pub mod Operations
pub mod About
use agent_os_test.Prelude.{[], ◌∷◌}
use agent_os_test.I18n.Catalogue.{Catalogue, group, Entries, end}
use agent_os_test.I18n.Notation.{groups}
use agent_os_test.I18n.Locales.En.Shell.{
  common, language, theme, nav, topbar, states, error_codes, counts,
}
use agent_os_test.I18n.Locales.En.Dashboard.{dashboard, status, badges}
use agent_os_test.I18n.Locales.En.Capabilities.{capabilities}
use agent_os_test.I18n.Locales.En.Overview.{overview}
use agent_os_test.I18n.Locales.En.Runs.{
  tasks, orchestrate, autonomous, agents, workflow_runs, approvals, memory, workflows,
}
use agent_os_test.I18n.Locales.En.Integrations.{integrations}
use agent_os_test.I18n.Locales.En.Operations.{
  runtime, tools, audit, health, settings, not_found, privacy,
}
use agent_os_test.I18n.Locales.En.About.{about}

abbrev pub pages : Entries
pages =
    groups
      (("overview", overview)
        ∷ ("tasks", tasks)
        ∷ ("orchestrate", orchestrate)
        ∷ ("autonomous", autonomous)
        ∷ ("agents", agents)
        ∷ ("workflowRuns", workflow_runs)
        ∷ ("approvals", approvals)
        ∷ ("memory", memory)
        ∷ ("runtime", runtime)
        ∷ ("tools", tools)
        ∷ ("integrations", integrations)
        ∷ ("audit", audit)
        ∷ ("health", health)
        ∷ ("settings", settings)
        ∷ ("about", about)
        ∷ ("notFound", not_found)
        ∷ ("workflows", workflows)
        ∷ ("privacy", privacy)
        ∷ [])
      end

abbrev pub en : Catalogue
en = group (
    groups
      (("common", common)
        ∷ ("language", language)
        ∷ ("theme", theme)
        ∷ ("nav", nav)
        ∷ ("topbar", topbar)
        ∷ ("states", states)
        ∷ ("errorCodes", error_codes)
        ∷ ("dashboard", dashboard)
        ∷ ("capabilities", capabilities)
        ∷ ("pages", pages)
        ∷ ("status", status)
        ∷ ("badges", badges)
        ∷ ("counts", counts)
        ∷ [])
      end)
