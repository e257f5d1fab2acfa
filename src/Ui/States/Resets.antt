-- ===== src/Ui/States/Resets.antt =====
-- What the button that resets the address does.
use agent_os_test.Prelude.{◌≡◌, ◌∙◌, Bool, false, text_has_eq, arith, eq_refl}
use agent_os_test.Browser.Storage.{Storage, Takes}
use agent_os_test.Api.Config.{Page, base_url_key, default_base_url, get_api_base_url, get_api_key}
use agent_os_test.Api.Config.Stored.{get_api_base_url-set_api_base_url}
use agent_os_test.Ui.States.{Thrown, TFunc, panel_of, press_reset}

-- If the storage takes the address, pressing the button makes the default address the one in use,
-- leaves the key as it is, and the panel of any further error does not offer the button again.
pub press_reset_lem :
    (t : TFunc) (p : Page) (st : Storage) (retries : Bool) (error : Thrown)
    → Takes st base_url_key (default_base_url p)
    → (get_api_base_url p (press_reset p st) ≡ default_base_url p)
      × (get_api_key (press_reset p st) ≡ get_api_key st)
      × ((panel_of t p (press_reset p st) retries error).offers_reset ≡ false)
unfolding press_reset
press_reset_lem t p st retries error h =
    let after = get_api_base_url-set_api_base_url p st (default_base_url p) h in
    let default : get_api_base_url p (press_reset p st) ≡ default_base_url p =
      after.0 ∙ ground arith in
    (default, after.1, rw default (ground (arith, eq_refl (default_base_url p))))
