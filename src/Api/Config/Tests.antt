-- ===== src/Api/Config/Tests.antt =====
-- The theorems on the addresses at a built page on a secure host.
use agent_os_test.Prelude.{
  lookup, ◌≡◌, ◌≢◌, ◌↔◌, ◌⊎◌, refl, true, false, none, some, [], ◌∷◌, text_has_eq, units,
}
use agent_os_test.Browser.Storage.{Storage, get_item}
use agent_os_test.Browser.Location.{Location}
use agent_os_test.Environment.{get_deployment_environment, production}
use agent_os_test.Api.Config.{
  Page, https, base_url_key, production_api, staging_api, default_base_url, get_api_base_url,
}
use agent_os_test.Api.Config.Hosts.{api_of_environment}
use agent_os_test.Api.Config.Stored.{IsReachable, get_api_base_url-IsReachable}

abbrev here : Location
here = record { protocol = https; hostname = units "app.thynact.com" }

abbrev loopback : Location
loopback = record { protocol = https; hostname = units "[::1]" }

abbrev page : Page
page = record {
  location = some here;
  vite_api_base_url = none;
  dev = false;
  parse_url = λ url. some loopback;
}

abbrev storage : Storage
storage = record {
  available = true;
  fits = λ k v. true;
  items = (base_url_key, units "https://[::1]/") ∷ [];
}

abbrev preview : Location
preview = record { protocol = https; hostname = units "preview.pages.dev" }

abbrev preview_page : Page
preview_page = record page { location = some preview }

abbrev empty_storage : Storage
empty_storage = record storage { items = [] }

api_of_environment_example :
    ((get_api_base_url preview_page empty_storage ≡ production_api)
      ↔ (get_deployment_environment (units "preview.pages.dev") ≡ production))
    × ((get_api_base_url preview_page empty_storage ≡ staging_api)
        ↔ (get_deployment_environment (units "preview.pages.dev") ≢ production))
unfolding get_item lookup
api_of_environment_example =
    api_of_environment preview_page preview empty_storage refl refl refl refl

get_api_base_url-IsReachable_example :
    (get_api_base_url page storage ≡ default_base_url page)
    ⊎ IsReachable page (get_api_base_url page storage)
get_api_base_url-IsReachable_example = get_api_base_url-IsReachable page here storage refl refl
