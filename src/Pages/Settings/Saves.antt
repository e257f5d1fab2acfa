-- ===== src/Pages/Settings/Saves.antt =====
-- What frontend/src/pages/Settings.tsx says of what it has saved.
use agent_os_test.Prelude.{◌≡◌, refl, sym, false, not, ◌&&◌, trim, is_empty, if◌then◌else◌}
use agent_os_test.Browser.Storage.{Takes}
use agent_os_test.Api.Config.{
  Page, base_url_key, api_key_key, default_base_url, is_usable_override, get_api_base_url,
  get_api_key, is_api_configured,
}
use agent_os_test.Api.Config.Written.{written_lem, written-unavailable}
use agent_os_test.Pages.Settings.{Settings, entered_url, save}

-- If the storage takes both values, the page says that a key is configured exactly if one is, the
-- key that was entered is in use, and the address is unless it is unusable from the page. If the
-- storage cannot be reached, no key is configured, and the page says that one is exactly if one was
-- entered.
pub save-configured :
    (p : Page) (s : Settings)
    → (Takes s.storage base_url_key (entered_url p s.base_url)
        → Takes s.storage api_key_key (trim s.api_key)
        → ((save p s).configured ≡ is_api_configured (save p s).storage)
          × (get_api_key (save p s).storage ≡ trim s.api_key)
          × (get_api_base_url p (save p s).storage ≡ (
              if not (is_empty (entered_url p s.base_url))
                && is_usable_override p (entered_url p s.base_url)
              then entered_url p s.base_url
              else default_base_url p)))
      × (s.storage.available ≡ false
          → (is_api_configured (save p s).storage ≡ false)
            × ((save p s).configured ≡ not (is_empty (trim s.api_key))))
unfolding save
save-configured p s = (
  λ h k.
      let (read, configured, used) =
        written_lem p s.storage (entered_url p s.base_url) (trim s.api_key) h k in
      (sym configured, read, used),
  λ h. (written-unavailable p s.storage (entered_url p s.base_url) (trim s.api_key) h, refl),
)
