-- ===== src/Integrations/AddServer.antt =====
-- The dialog for a new MCP server: frontend/src/components/integrations/AddMcpServerDialog.tsx.
pub mod Submits
mod Tests
use agent_os_test.Prelude.{
  Bool, ◌&&◌, ◌||◌, true, false, Option, none, some, List, [], ◌∷◌, Text, units, trim, is_empty,
  if◌then◌else◌,
}
use agent_os_test.Types.Connectors.{McpAuthType, McpServerCreate}
use agent_os_test.Ui.Toast.{Toast, success, error}

pub record Form : Type 0 where
  pub name : Text
  pub endpoint : Text
  pub auth_type : McpAuthType
  pub header_name : Text
  pub secret_value : Text
  pub problem : Option Text

-- `reset`, and the state at first.
abbrev pub empty_form : Form
empty_form = record {
  name = [];
  endpoint = [];
  auth_type = McpAuthType.none;
  header_name = [];
  secret_value = [];
  problem = none;
}

-- `authType === "header"`
abbrev pub is_header : McpAuthType → Bool
is_header McpAuthType.header = true
is_header McpAuthType.bearer = false
is_header McpAuthType.none = false

abbrev pub is_unauthenticated : McpAuthType → Bool
is_unauthenticated McpAuthType.none = true
is_unauthenticated McpAuthType.bearer = false
is_unauthenticated McpAuthType.header = false

-- `s || null`
abbrev pub text_or_null : Text → Option Text
text_or_null s = if is_empty s then none else some s

-- The payload of `create.mutate`. A field that is sent as `null` is `some none`.
abbrev pub payload : Form → McpServerCreate
payload f = record {
  name = trim f.name;
  endpoint = trim f.endpoint;
  auth_type = f.auth_type;
  header_name = some (if is_header f.auth_type then some (trim f.header_name) else none);
  secret_value =
      some (if is_unauthenticated f.auth_type then none else text_or_null f.secret_value);
  timeout_seconds = none;
  enabled = none;
}

-- `submit`: the form behind it, and the payload that is sent if any.
unfoldable pub submit : Form → Form × Option McpServerCreate
submit f =
    if is_empty (trim f.name) || is_empty (trim f.endpoint)
    then (record f { problem = some (units "Name and endpoint are required.") }, none)
    else if is_header f.auth_type && is_empty (trim f.header_name)
    then (
      record f { problem = some (units "Header name is required for header-based auth.") },
      none,
    )
    else (record f { problem = none }, some (payload f))

-- The dialog in the page, with the toasts that were pushed.
pub record Dialog : Type 0 where
  pub form : Form
  pub is_open : Bool
  pub toasts : List Toast

-- `onClose` of the dialog.
unfoldable pub close_dialog : Dialog → Dialog
close_dialog d = record d { form = empty_form; is_open = false }

-- The button that cancels.
unfoldable pub cancel : Dialog → Dialog
cancel d = record d { is_open = false }

unfoldable pub added : Dialog → Dialog
added d = record {
  form = empty_form;
  is_open = false;
  toasts =
      record {
        title = units "MCP server added";
        description = some (units "Run Test connection to discover its capabilities.");
        tone = success;
      }
      ∷ d.toasts;
}

unfoldable pub add_failed : Text → Dialog → Dialog
add_failed message d = record d {
  toasts =
      record { title = units "Failed to add server"; description = some message; tone = error }
      ∷ d.toasts;
}
