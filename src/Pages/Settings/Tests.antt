-- ===== src/Pages/Settings/Tests.antt =====
-- The theorem on the form, at a page on a secure host.
use agent_os_test.Prelude.{
  ◌≡◌, ◌&&◌, true, false, not, none, some, [], units, trim, is_empty, if◌then◌else◌,
}
use agent_os_test.Browser.Storage.{Storage, Takes}
use agent_os_test.Browser.Location.{Location}
use agent_os_test.Api.Config.{
  Page, https, base_url_key, api_key_key, default_base_url, is_usable_override, get_api_base_url,
  get_api_key, is_api_configured,
}
use agent_os_test.Pages.Settings.{Settings, entered_url, save}
use agent_os_test.Pages.Settings.Saves.{save-configured}

abbrev here : Location
here = record { protocol = https; hostname = units "app.thynact.com" }

abbrev page : Page
page = record {
  location = some here;
  vite_api_base_url = none;
  dev = false;
  parse_url = λ url. some here;
}

abbrev storage : Storage
storage = record { available = true; fits = λ k v. true; items = [] }

abbrev form : Settings
form = record {
  base_url = units "https://api";
  api_key = units " k ";
  configured = false;
  storage = storage;
  toasts = [];
}

save-configured_example :
    (Takes form.storage base_url_key (entered_url page form.base_url)
      → Takes form.storage api_key_key (trim form.api_key)
      → ((save page form).configured ≡ is_api_configured (save page form).storage)
        × (get_api_key (save page form).storage ≡ trim form.api_key)
        × (get_api_base_url page (save page form).storage ≡ (
            if not (is_empty (entered_url page form.base_url))
              && is_usable_override page (entered_url page form.base_url)
            then entered_url page form.base_url
            else default_base_url page)))
    × (form.storage.available ≡ false
        → (is_api_configured (save page form).storage ≡ false)
          × ((save page form).configured ≡ not (is_empty (trim form.api_key))))
save-configured_example = save-configured page form
