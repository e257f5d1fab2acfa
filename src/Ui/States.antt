-- ===== src/Ui/States.antt =====
-- `ErrorState` of frontend/src/components/ui/States.tsx: the texts that are rendered and the
-- buttons that are offered. `t` is a parameter; an icon is a name.
pub mod Routes
pub mod Resets
mod Tests
use agent_os_test.Prelude.{
  Bool, ◌&&◌, ◌||◌, true, false, not, Option, none, some, List, [], ◌∷◌, ◌++◌, Text, text_has_eq,
  units, ◌==◌, eqb, is_empty, decimal, if◌then◌else◌,
}
use agent_os_test.Browser.Storage.{Storage}
use agent_os_test.Api.Config.{Page, default_base_url, get_api_base_url, set_api_base_url}
use agent_os_test.Api.Client.{ApiError, or_text}
use agent_os_test.I18n.Interpolate.{Vars}

-- What the component is given: an `ApiError`, another `Error`, or any other value.
pub data Thrown : Type 0 where
  api_failure : ApiError → Thrown
  failure : Text → Thrown
  anything : Thrown

pub data Icon : Type 0 where
  clock wifi_off search_x alert_triangle : Icon

-- The result of `describeError`.
pub record Description : Type 0 where
  pub title : Text
  pub description : Text
  pub icon : Icon

-- The panel of a failure. An address is shown if one was tried.
pub record Panel : Type 0 where
  pub title : Text
  pub description : Text
  pub icon : Icon
  pub correlation_id : Option Text
  pub tried : Option Text
  pub offers_retry : Bool
  pub offers_reset : Bool

-- What is rendered. `auth_required` has a link to the settings.
pub data View : Type 0 where
  auth_required : (title body : Text) → View
  service_unconfigured : (title description : Text) → View
  permission_denied : (title description : Text) → View
  panel : Panel → View

abbrev pub TFunc : Type 0
TFunc = Text → Option Vars → Text

-- A correlation id that is rendered: one that is not empty.
abbrev pub non_empty : Option Text → Option Text
non_empty none = none
non_empty (some []) = none
non_empty (some (c ∷ s)) = some (c ∷ s)

abbrev pub network_like : Thrown → Bool
network_like (api_failure e) = e.is_network_error || e.is_timeout
network_like (failure message) = true
network_like anything = true

abbrev pub correlation_of : Thrown → Option Text
correlation_of (api_failure e) = e.correlation_id
correlation_of (failure message) = none
correlation_of anything = none

module _ (t : TFunc) where
  pub describe_error : Thrown → Description
  describe_error (api_failure e) =
      if e.is_timeout
      then record { title = t (units "states.timedOut") none; description = e.detail; icon = clock }
      else if e.is_network_error
      then record {
        title = t (units "states.cantReachApi") none;
        description = t (units "states.networkHint") none;
        icon = wifi_off;
      }
      else if eqb e.status 404
      then record {
        title = t (units "states.notFound") none;
        description = e.detail;
        icon = search_x;
      }
      else record {
        title = units "Request failed (" ++ (decimal e.status ++ units ")");
        description = e.detail;
        icon = alert_triangle;
      }
  describe_error (failure message) = record {
    title = t (units "states.somethingWentWrong") none;
    description = message;
    icon = alert_triangle;
  }
  describe_error anything = record {
    title = t (units "states.somethingWentWrong") none;
    description = t (units "states.unexpectedError") none;
    icon = alert_triangle;
  }

  -- `described` at an `ApiError`
  pub described : ApiError → Text
  described e = elim e.code [
    | none ↦ e.detail
    | some code ↦
        if is_empty code then e.detail else or_text (t (units "errorCodes." ++ code) none) e.detail
  ]

  abbrev pub panel_of : Page → Storage → Bool → Thrown → Panel
  panel_of p st retries error =
      let d = describe_error error in
      let base = get_api_base_url p st in
      record {
        title = d.title;
        description = d.description;
        icon = d.icon;
        correlation_id = non_empty (correlation_of error);
        tried = if network_like error then non_empty (some base) else none;
        offers_retry = retries;
        offers_reset =
            network_like error && not (is_empty base) && not (base == default_base_url p);
      }

  -- `ErrorState`
  pub error_state : Page → Storage → Bool → Thrown → View
  error_state p st retries (api_failure e) =
      if e.is_unauthorized
      then auth_required (t (units "states.authRequiredTitle") none)
          (t (units "states.authRequiredBody") (some ((units "detail", described e) ∷ [])))
      else if e.is_forbidden
      then permission_denied (t (units "states.permissionDeniedTitle") none) (described e)
      else if e.is_unavailable
      then service_unconfigured (t (units "states.serviceUnavailableTitle") none) (described e)
      else panel (panel_of p st retries (api_failure e))
  error_state p st retries (failure message) = panel (panel_of p st retries (failure message))
  error_state p st retries anything = panel (panel_of p st retries anything)

-- The button that resets the address, before it retries.
pub press_reset : Page → Storage → Storage
press_reset p st = set_api_base_url (default_base_url p) st
