-- ===== src/Ui/Theme/Tests.antt =====
-- The theorem on themes at a page that follows the system.
use agent_os_test.Prelude.{true, false, []}
use agent_os_test.Browser.Storage.{Storage}
use agent_os_test.Ui.Theme.{light, ThemeProvider}

abbrev local : Storage
local = record { available = true; fits = λ k v. true; items = [] }

abbrev page : ThemeProvider
page = record {
  theme = light;
  resolved_theme = light;
  has_dark_class = false;
  local_storage = local;
}
