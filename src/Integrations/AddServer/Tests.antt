-- ===== src/Integrations/AddServer/Tests.antt =====
-- The theorem on the dialog, at a form with a header.
use agent_os_test.Prelude.{◌≡◌, none, some, Text, units}
use agent_os_test.Types.Connectors.{McpAuthType, McpServerCreate}
use agent_os_test.Integrations.AddServer.{Form, payload, submit}
use agent_os_test.Integrations.AddServer.Submits.{IsComplete, Withholds, submit-IsComplete}

abbrev form : Form
form = record {
  name = units " Tools ";
  endpoint = units "https://s";
  auth_type = McpAuthType.header;
  header_name = units "X-Key";
  secret_value = units "k";
  problem = none;
}

submit-IsComplete_example :
    (IsComplete form → submit form ≡ (record form { problem = none }, some (payload form)))
    × ((r : McpServerCreate) → (submit form).1 ≡ some r → IsComplete form × Withholds form r)
    × ((submit form).1 ≡ none
        → (message : Text) × ((submit form).0 ≡ record form { problem = some message }))
submit-IsComplete_example = submit-IsComplete form
