-- ===== src/Api/Config/Written.antt =====
-- The key and the address set one after the other, as the page of frontend/src/pages/Settings.tsx
-- does by frontend/src/lib/api/config.ts.
use agent_os_test.Prelude.{◌≡◌, ap, ◌∙◌, ◌&&◌, not, false, Text, is_empty, if◌then◌else◌}
use agent_os_test.Browser.Storage.{Storage, Takes, set_item-available}
use agent_os_test.Api.Config.{
  Page, base_url_key, api_key_key, default_base_url, is_usable_override, get_api_base_url,
  set_api_base_url, get_api_key, set_api_key, is_api_configured,
}
use agent_os_test.Api.Config.Stored.{
  get_api_base_url-set_api_base_url, get_api_key-set_api_key, unavailable_default,
}

-- The storage behind both writes.
abbrev pub written : Text → Text → Storage → Storage
written url key st = set_api_key key (set_api_base_url url st)

second-Takes :
    (st : Storage) (url key : Text)
    → Takes st api_key_key key
    → Takes (set_api_base_url url st) api_key_key key
unfolding set_api_base_url
second-Takes st url key (h, f) =
    let (same, fits) = set_item-available st base_url_key url in
    (same ∙ h, ap (λ fit. fit api_key_key key) fits ∙ f)

-- If the storage takes both, each is the one in use.
pub written_lem :
    (p : Page) (st : Storage) (url key : Text)
    → Takes st base_url_key url
    → Takes st api_key_key key
    → (get_api_key (written url key st) ≡ key)
      × (is_api_configured (written url key st) ≡ not (is_empty key))
      × (get_api_base_url p (written url key st)
          ≡ (if not (is_empty url) && is_usable_override p url then url else default_base_url p))
written_lem p st url key h k =
    let (read, configured, same) =
      get_api_key-set_api_key p (set_api_base_url url st) key (second-Takes st url key k) in
    (read, configured, same ∙ (get_api_base_url-set_api_base_url p st url h).0)

-- If the storage cannot be reached, neither is.
pub written-unavailable :
    (p : Page) (st : Storage) (url key : Text)
    → st.available ≡ false
    → is_api_configured (written url key st) ≡ false
unfolding set_api_base_url
written-unavailable p st url key h =
    (unavailable_default p (set_api_base_url url st) url key
      ((set_item-available st base_url_key url).0 ∙ h)).1
