-- ===== src/Ui/States/Routes.antt =====
-- Which view an error gets.
use agent_os_test.Prelude.{ℕ, ◌≡◌, refl, ◌↔◌, Bool, none, some, ◌∷◌, ◌++◌, Text, units, arith}
use agent_os_test.Browser.Storage.{Storage}
use agent_os_test.Api.Config.{Page}
use agent_os_test.Api.Client.{ApiError}
use agent_os_test.Api.Client.Coherence.{IsCoherent}
use agent_os_test.I18n.Interpolate.{Inherited}
use agent_os_test.I18n.Catalogue.{Catalogue, lookup_key, translate}
use agent_os_test.I18n.Catalogue.Fallback.{translate-ComesFrom}
use agent_os_test.Ui.States.{
  api_failure, View, auth_required, service_unconfigured, permission_denied, panel, TFunc,
  described, error_state,
}

-- The kind of a view.
pub data Kind : Type 0 where
  authenticate unconfigured denied failed : Kind

abbrev pub kind_of : View → Kind
kind_of (auth_required title body) = authenticate
kind_of (service_unconfigured title description) = unconfigured
kind_of (permission_denied title description) = denied
kind_of (panel contents) = failed

-- For an error that is coherent, whatever `t` is: the view that leads to the settings is rendered
-- exactly for the status 401, the view that a permission is missing exactly for 403, and the view
-- that the server is not configured exactly for 503.
pub error_state-kind :
    (t : TFunc) (p : Page) (st : Storage) (retries : Bool) (e : ApiError)
    → IsCoherent e
    → ((kind_of (error_state t p st retries (api_failure e)) ≡ authenticate) ↔ (e.status ≡ 401))
      × ((kind_of (error_state t p st retries (api_failure e)) ≡ denied) ↔ (e.status ≡ 403))
      × ((kind_of (error_state t p st retries (api_failure e)) ≡ unconfigured) ↔ (e.status ≡ 503))
unfolding error_state
error_state-kind t p st retries e h = ground (arith, h.unauthorized, h.forbidden, h.unavailable)

-- If neither catalogue has a text for the code of an error, the key of the code is shown, and not
-- the detail of the error.
pub described-missing :
    (inherited : Inherited) (catalogue en : Catalogue) (e : ApiError) (c : ℕ) (code : Text)
    → e.code ≡ some (c ∷ code)
    → lookup_key catalogue (units "errorCodes." ++ (c ∷ code)) ≡ none
    → lookup_key en (units "errorCodes." ++ (c ∷ code)) ≡ none
    → described (translate inherited catalogue en) e ≡ units "errorCodes." ++ (c ∷ code)
unfolding described
described-missing inherited catalogue en e c code coded missing absent =
    let key = units "errorCodes." ++ (c ∷ code) in
    let as_key = (translate-ComesFrom inherited catalogue en key none).1 missing absent in
    rw (coded, described) (rw as_key refl)
