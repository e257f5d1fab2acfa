-- ===== src/Api/Config.antt =====
-- frontend/src/lib/api/config.ts. The build's variables, the page's location and `new URL` are
-- parameters; the session storage is passed on explicitly.
pub mod Hosts
pub mod Stored
pub mod Written
mod Tests
use agent_os_test.Prelude.{
  Bool, ◌&&◌, true, false, not, Option, none, some, List, [], ◌∷◌, ◌++◌, Text, text_has_eq, units,
  ◌==◌, contains, ends_with, trim, is_empty, if◌then◌else◌,
}
use agent_os_test.Browser.Storage.{
  Storage, Attempt, returned, thrown, get_item, set_item, remove_item, or_else,
}
use agent_os_test.Browser.Location.{Location, UrlParser}

-- `BASE_URL_KEY` and `API_KEY_KEY`
abbrev pub base_url_key : Text
base_url_key = units "agent-os:api-base-url"

abbrev pub api_key_key : Text
api_key_key = units "agent-os:api-key"

-- What the module reads of its surroundings: `window.location` (`none` where there is no window),
-- `VITE_API_BASE_URL` and `DEV` of the build, and the parser of addresses.
pub record Page : Type 0 where
  pub location : Option Location
  pub vite_api_base_url : Option Text
  pub dev : Bool
  pub parse_url : UrlParser

-- `PRODUCTION_HOSTS`
abbrev pub production_hosts : List Text
production_hosts = units "app.thynact.com" ∷ units "agent-os-test.pages.dev" ∷ []

abbrev pub production_api : Text
production_api = units "https://api.thynact.com"

abbrev pub staging_api : Text
staging_api = units "https://api-staging.thynact.com"

-- `computeDevDefault`
pub compute_dev_default : Page → Text
compute_dev_default p = elim p.location [
  | none ↦ units "http://localhost:8000"
  | some l ↦
      if ends_with l.hostname (units ".replit.dev")
      then l.protocol ++ (units "//" ++ l.hostname)
      else l.protocol ++ (units "//" ++ (l.hostname ++ units ":8000"))
]

-- `computeApiBaseUrl`
pub compute_api_base_url : Text → Text
compute_api_base_url hostname =
    if contains hostname production_hosts
    then production_api
    else if hostname == units "staging.thynact.com"
    then staging_api
    else if ends_with hostname (units ".pages.dev")
    then staging_api
    else staging_api

-- `computeDefaultBaseUrl` where the build names no address.
abbrev pub unconfigured_default : Page → Text
unconfigured_default p =
    if p.dev
    then compute_dev_default p
    else elim p.location [ none ↦ production_api | some l ↦ compute_api_base_url l.hostname ]

-- `computeDefaultBaseUrl`, the value of `DEFAULT_BASE_URL`
pub default_base_url : Page → Text
default_base_url p = elim p.vite_api_base_url [
  | none ↦ unconfigured_default p
  | some url ↦
      let configured = trim url in
      if is_empty configured then unconfigured_default p else configured
]

abbrev pub https : Text
https = units "https:"

-- The hosts that an override may not name.
abbrev pub loopback_hosts : List Text
loopback_hosts = units "localhost" ∷ units "127.0.0.1" ∷ units "::1" ∷ units "0.0.0.0" ∷ []

-- `isUsableOverride`
pub is_usable_override : Page → Text → Bool
is_usable_override p url = elim p.location [
  | none ↦ true
  | some l ↦ if not (l.protocol == https) then true else elim (p.parse_url url) [
    | none ↦ false
    | some parsed ↦
        if not (parsed.protocol == https)
        then false
        else not (contains parsed.hostname loopback_hosts)
  ]
]

-- `getApiBaseUrl`
pub get_api_base_url : Page → Storage → Text
get_api_base_url p st = elim (get_item st base_url_key) [
  | thrown ↦ default_base_url p
  | returned none ↦ default_base_url p
  | returned (some stored) ↦
      if not (is_empty stored) && is_usable_override p stored then stored else default_base_url p
]

-- `setApiBaseUrl`
pub set_api_base_url : Text → Storage → Storage
set_api_base_url url st = or_else st (set_item st base_url_key url)

-- `getApiKey`
pub get_api_key : Storage → Text
get_api_key st = elim (get_item st api_key_key) [
  | thrown ↦ []
  | returned none ↦ []
  | returned (some key) ↦ key
]

-- `setApiKey`
pub set_api_key : Text → Storage → Storage
set_api_key key st =
    or_else st (if is_empty key then remove_item st api_key_key else set_item st api_key_key key)

-- `isApiConfigured`
pub is_api_configured : Storage → Bool
is_api_configured st = not (is_empty (get_api_key st))

-- `resetApiConfig`
pub reset_api_config : Page → Storage → Storage
reset_api_config p st = set_api_key [] (set_api_base_url (default_base_url p) st)
