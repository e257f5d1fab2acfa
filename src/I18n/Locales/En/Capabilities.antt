-- ===== src/I18n/Locales/En/Capabilities.antt =====
-- The texts of frontend/src/lib/i18n/locales/en.ts: `capabilities`.
use agent_os_test.Prelude.{[], ◌∷◌}
use agent_os_test.I18n.Catalogue.{Entries, end}
use agent_os_test.I18n.Notation.{texts, groups}

abbrev pub capabilities : Entries
capabilities =
    groups
      ((
        "identity",
        groups (("account", texts (("read", "Read the connected account") ∷ []) end) ∷ []) end,
      )
        ∷ (
          "mail",
          groups
              ((
                "message",
                texts
                    (("list", "List messages")
                      ∷ ("read", "Read message contents")
                      ∷ ("send", "Send mail")
                      ∷ [])
                    end,
              )
                ∷ ("draft", texts (("create", "Create a draft") ∷ []) end)
                ∷ [])
              end,
        )
        ∷ (
          "calendar",
          groups
              ((
                "event",
                texts
                    (("list", "List calendar events")
                      ∷ ("create", "Create a calendar event")
                      ∷ ("update", "Update a calendar event")
                      ∷ ("delete", "Delete a calendar event")
                      ∷ [])
                    end,
              )
                ∷ [])
              end,
        )
        ∷ (
          "files",
          groups
              ((
                "file",
                texts
                    (("list", "List files")
                      ∷ ("read", "Read file contents")
                      ∷ ("write", "Create or update a file")
                      ∷ ("delete", "Delete a file")
                      ∷ [])
                    end,
              )
                ∷ [])
              end,
        )
        ∷ (
          "chat",
          groups
              ((
                "message",
                texts (("list", "Read channel messages") ∷ ("send", "Post a message") ∷ []) end,
              )
                ∷ [])
              end,
        )
        ∷ (
          "docs",
          groups
              ((
                "page",
                texts (("read", "Read pages") ∷ ("write", "Create or update a page") ∷ []) end,
              )
                ∷ [])
              end,
        )
        ∷ (
          "tracker",
          groups
              ((
                "issue",
                texts
                    (("list", "List issues")
                      ∷ ("create", "Create an issue")
                      ∷ ("update", "Update an issue")
                      ∷ [])
                    end,
              )
                ∷ [])
              end,
        )
        ∷ (
          "repo",
          groups
              (("metadata", texts (("read", "Read repository metadata") ∷ []) end)
                ∷ ("content", texts (("read", "Read repository contents") ∷ []) end)
                ∷ ("issue", texts (("create", "Open an issue or pull request") ∷ []) end)
                ∷ ("branch", texts (("merge", "Merge a branch") ∷ []) end)
                ∷ [])
              end,
        )
        ∷ (
          "automation",
          groups
              (("run", texts (("read", "Read an execution result") ∷ []) end)
                ∷ ("workflow", texts (("trigger", "Trigger an external workflow") ∷ []) end)
                ∷ [])
              end,
        )
        ∷ (
          "ai",
          groups
              (("model", texts (("list", "List available models") ∷ []) end)
                ∷ ("completion", texts (("create", "Run a model completion") ∷ []) end)
                ∷ [])
              end,
        )
        ∷ (
          "data",
          groups
              (("record", texts (("read", "Read records") ∷ ("write", "Write records") ∷ []) end)
                ∷ ("search", texts (("semantic", "Semantic search") ∷ []) end)
                ∷ [])
              end,
        )
        ∷ (
          "queue",
          groups
              (("job", texts (("read", "Read queued jobs") ∷ ("enqueue", "Enqueue a job") ∷ []) end)
                ∷ [])
              end,
        )
        ∷ (
          "crm",
          groups
              ((
                "contact",
                texts (("list", "List CRM contacts") ∷ ("update", "Update a CRM contact") ∷ []) end,
              )
                ∷ ("deal", texts (("list", "List deals") ∷ []) end)
                ∷ ("ticket", texts (("list", "List tickets") ∷ []) end)
                ∷ [])
              end,
        )
        ∷ (
          "commerce",
          groups
              (("payment", texts (("list", "List payments") ∷ []) end)
                ∷ ("subscription", texts (("list", "List subscriptions") ∷ []) end)
                ∷ ("refund", texts (("create", "Issue a refund") ∷ []) end)
                ∷ [])
              end,
        )
        ∷ (
          "cloud",
          groups
              (("service", texts (("read", "Read service status") ∷ []) end)
                ∷ ("dns", texts (("read", "Read DNS and edge configuration") ∷ []) end)
                ∷ ("deploy", texts (("trigger", "Trigger a deployment") ∷ []) end)
                ∷ [])
              end,
        )
        ∷ (
          "auth",
          groups (("user", texts (("list", "List authenticated users") ∷ []) end) ∷ []) end,
        )
        ∷ [])
      end
