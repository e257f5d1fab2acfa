-- ===== src/I18n/Locales/En/Runs.antt =====
-- The texts of frontend/src/lib/i18n/locales/en.ts: `pages.tasks`, `pages.orchestrate`,
-- `pages.autonomous`, `pages.agents`, `pages.workflowRuns`, `pages.approvals`, `pages.memory`,
-- `pages.workflows`.
use agent_os_test.Prelude.{[], ◌∷◌}
use agent_os_test.I18n.Catalogue.{Entries, end}
use agent_os_test.I18n.Notation.{texts}

abbrev pub tasks : Entries
tasks =
    texts
      (("title", "Tasks")
        ∷ (
          "description",
          "Create tasks and look them up by ID. The API does not expose a task list, so recent tasks from this session are tracked below.",
        )
        ∷ ("lookupPlaceholder", "Paste a task ID")
        ∷ ("emptyTitle", "No tasks created yet")
        ∷ ("emptyBody", "Tasks you create above will appear here for quick lookup.")
        ∷ [])
      end

abbrev pub orchestrate : Entries
orchestrate =
    texts
      (("title", "Orchestrate")
        ∷ (
          "description",
          "Run a researcher → builder → reviewer multi-agent orchestration against a single objective.",
        )
        ∷ ("objectivePlaceholder", "Design a rollout plan for the new billing system")
        ∷ ("contextPlaceholder", "Relevant constraints, prior decisions, or background")
        ∷ ("working", "Researcher, builder, and reviewer are working…")
        ∷ ("emptyTitle", "No orchestration run yet")
        ∷ (
          "emptyBody",
          "Enter an objective above and run it to see researcher, builder, and reviewer activity.",
        )
        ∷ [])
      end

abbrev pub autonomous : Entries
autonomous =
    texts
      (("title", "Autonomous Runs")
        ∷ (
          "description",
          "Planner → specialist jobs → verifier → synthesis, fully autonomous from a single objective.",
        )
        ∷ ("working", "Planning, executing specialists, and verifying…")
        ∷ ("emptyTitle", "No autonomous run yet")
        ∷ (
          "emptyBody",
          "Submit an objective above to watch the planner, specialists, and verifier work.",
        )
        ∷ [])
      end

abbrev pub agents : Entries
agents =
    texts
      (("title", "Agents")
        ∷ (
          "description",
          "THYNACT runs three fixed roles per orchestration, and dynamically named specialists per autonomous run.",
        )
        ∷ [])
      end

abbrev pub workflow_runs : Entries
workflow_runs =
    texts
      (("title", "Workflow Runs")
        ∷ (
          "description",
          "Inspect a run by ID and resume it past approval pauses. The API does not expose a run list, so this session's runs are tracked below.",
        )
        ∷ ("lookupPlaceholder", "Paste a workflow run ID")
        ∷ ("approvalIdPlaceholder", "Approval ID")
        ∷ ("emptyTitle", "No workflow runs yet")
        ∷ ("emptyBody", "Runs started from the Workflows editor appear here.")
        ∷ [])
      end

abbrev pub approvals : Entries
approvals =
    texts
      (("title", "Approval Center")
        ∷ (
          "description",
          "THYNACT uses single-use, pre-authorized approval grants rather than a pending-request queue.",
        )
        ∷ ("emptyTitle", "No approvals issued yet")
        ∷ (
          "emptyBody",
          "Grants you issue above will be listed here for quick reuse in the Tools page.",
        )
        ∷ [])
      end

abbrev pub memory : Entries
memory =
    texts
      (("title", "Memory")
        ∷ (
          "description",
          "Search THYNACT's semantic + lexical memory, or write new memories directly.",
        )
        ∷ ("searchHint", "Ranked by semantic + lexical relevance")
        ∷ ("listView", "List view")
        ∷ ("graphView", "Graph view")
        ∷ ("emptyTitle", "No memories found")
        ∷ ("emptyBody", "Try a different query or scope.")
        ∷ ("deleteMemory", "Delete memory")
        ∷ ("deleteTitle", "Delete this memory?")
        ∷ ("deleteBody", "This cannot be undone.")
        ∷ [])
      end

abbrev pub workflows : Entries
workflows =
    texts
      (("title", "Workflows")
        ∷ (
          "description",
          "Design a step graph, then run it. There's no separate save — running a workflow persists its definition.",
        )
        ∷ ("viewRuns", "View workflow runs")
        ∷ ("workflowName", "Workflow name")
        ∷ ("runContext", "Run context (JSON)")
        ∷ ("stepGraph", "Step graph")
        ∷ ("addStep", "Add step")
        ∷ ("deleteSelected", "Delete selected")
        ∷ ("runWorkflow", "Run workflow")
        ∷ ("started", "Workflow started")
        ∷ ("runFailed", "Run failed")
        ∷ [])
      end
