-- ===== src/Pages/Settings.antt =====
-- The form of the connection: frontend/src/pages/Settings.tsx. The fields show what is stored when
-- the page is opened.
pub mod Saves
mod Tests
use agent_os_test.Prelude.{
  Bool, true, false, not, none, some, List, [], ◌∷◌, Text, units, trim, is_empty, if◌then◌else◌,
}
use agent_os_test.Browser.Storage.{Storage}
use agent_os_test.Api.Config.{
  Page, default_base_url, get_api_base_url, set_api_base_url, get_api_key, set_api_key,
  is_api_configured, reset_api_config,
}
use agent_os_test.Ui.Toast.{Toast, success, info}

-- The state of the page, the storage that it writes, and the toasts that were pushed.
pub record Settings : Type 0 where
  pub base_url : Text
  pub api_key : Text
  pub configured : Bool
  pub storage : Storage
  pub toasts : List Toast

module _ (p : Page) where
  unfoldable pub open_settings : Storage → Settings
  open_settings st = record {
    base_url = get_api_base_url p st;
    api_key = get_api_key st;
    configured = is_api_configured st;
    storage = st;
    toasts = [];
  }

  -- `baseUrl.trim() || DEFAULT_BASE_URL`
  abbrev pub entered_url : Text → Text
  entered_url text = if is_empty (trim text) then default_base_url p else trim text

  abbrev pub saved_toast : Toast
  saved_toast = record {
    title = units "API configuration saved";
    description = some (units "Stored for this browser tab only.");
    tone = success;
  }

  -- `save`
  unfoldable pub save : Settings → Settings
  save s = record s {
    configured = not (is_empty (trim s.api_key));
    storage = set_api_key (trim s.api_key) (set_api_base_url (entered_url s.base_url) s.storage);
    toasts = saved_toast ∷ s.toasts;
  }

  abbrev pub cleared_toast : Toast
  cleared_toast = record {
    title = units "API configuration cleared";
    description = none;
    tone = info;
  }

  -- `clear`
  unfoldable pub clear : Settings → Settings
  clear s = record {
    base_url = default_base_url p;
    api_key = [];
    configured = false;
    storage = reset_api_config p s.storage;
    toasts = cleared_toast ∷ s.toasts;
  }
