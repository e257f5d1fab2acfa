-- ===== src/Ui/States/Tests.antt =====
-- The theorems on the error view at an error of the status 503 with a code.
use agent_os_test.Prelude.{
  ◌≡◌, ◌↔◌, inl, inr, refl, true, false, none, some, [], ◌++◌, units, arith, split, split_on,
}
use agent_os_test.Browser.Storage.{Storage}
use agent_os_test.Api.Config.{Page}
use agent_os_test.Api.Client.{ApiError}
use agent_os_test.Api.Client.Coherence.{IsCoherent}
use agent_os_test.I18n.Interpolate.{Inherited}
use agent_os_test.I18n.Catalogue.{Catalogue, group, end, lookup_key, descend, child}
use agent_os_test.Ui.States.{api_failure, TFunc, error_state}
use agent_os_test.Ui.States.Routes.{kind_of, authenticate, denied, unconfigured, error_state-kind}

abbrev outage : ApiError
outage = record {
  status = 503;
  detail = units "No key is configured.";
  code = some (units "no_key");
  correlation_id = some (units "c1");
  is_network_error = false;
  is_timeout = false;
  is_unauthorized = false;
  is_forbidden = false;
  is_unavailable = true;
  is_not_found = false;
}

outage-IsCoherent : IsCoherent outage
outage-IsCoherent = record {
  unauthorized = ((λ h. cc), (λ h. absurd (omega arith)));
  forbidden = ((λ h. cc), (λ h. absurd (omega arith)));
  unavailable = ((λ h. refl), (λ h. refl));
  not_found = ((λ h. cc), (λ h. absurd (omega arith)));
  network = λ h. elim h [ inl e ↦ cc | inr e ↦ cc ];
  worded = λ h. cc;
  traced = λ h. cc;
}

abbrev key_itself : TFunc
key_itself key vars = key

abbrev page : Page
page = record { location = none; vite_api_base_url = none; dev = false; parse_url = λ url. none }

abbrev storage : Storage
storage = record { available = true; fits = λ k v. true; items = [] }

error_state-kind_example :
    ((kind_of (error_state key_itself page storage true (api_failure outage)) ≡ authenticate)
      ↔ (outage.status ≡ 401))
    × ((kind_of (error_state key_itself page storage true (api_failure outage)) ≡ denied)
        ↔ (outage.status ≡ 403))
    × ((kind_of (error_state key_itself page storage true (api_failure outage)) ≡ unconfigured)
        ↔ (outage.status ≡ 503))
error_state-kind_example = error_state-kind key_itself page storage true outage outage-IsCoherent

abbrev nothing_inherited : Inherited
nothing_inherited name = none

abbrev empty : Catalogue
empty = group end

missing : lookup_key empty (units "errorCodes." ++ units "no_key") ≡ none
unfolding lookup_key descend child split split_on
missing = refl
