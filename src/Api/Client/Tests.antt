-- ===== src/Api/Client/Tests.antt =====
-- The theorems on requests at a network that answers one response.
use agent_os_test.Prelude.{
  ◌≡◌, ◌↔◌, ◌⊎◌, refl, true, false, Option, none, some, [], ◌∷◌, Text, text_has_eq, units,
}
use agent_os_test.Json.{Value, str}
use agent_os_test.Browser.Storage.{Storage, returned}
use agent_os_test.Api.Config.{Page, base_url_key, api_key_key}
use agent_os_test.Api.Client.{
  RequestOptions, Request, Response, Fetched, responded, failed, resolved, refused, request_of,
  fetch_error, api_request, is_ok,
}
use agent_os_test.Api.Client.Coherence.{IsCoherent}
use agent_os_test.Api.Client.Outcomes.{Delivers, api_request_iff, api_request-refused}

abbrev page : Page
page = record { location = none; vite_api_base_url = none; dev = false; parse_url = λ url. none }

abbrev storage : Storage
storage = record {
  available = true;
  fits = λ k v. true;
  items = (base_url_key, units "http://h/") ∷ ((api_key_key, units "k") ∷ []);
}

abbrev options : RequestOptions
options = record { method = none; body = none; timeout_ms = none; skip_auth = none }

abbrev quoted : Text → Option Value
quoted t = some (str t)

abbrev printed : Value → Text
printed v = units "1"

abbrev answer : Response
answer = record {
  status = 200;
  status_text = units "OK";
  correlation_header = none;
  text = returned (units "1");
}

abbrev answers : Request → Fetched
answers r = responded answer

abbrev fails : Request → Fetched
fails r = failed (units "AbortError")

abbrev path : Text
path = units "/health"

abbrev id : Text
id = units "c1"

api_request_iff_example :
    ((api_request quoted printed answers page storage path options id).0
      ≡ resolved (some (str (units "1"))))
    ↔ ((r : Response) × (answers (request_of printed page storage path options id) ≡ responded r)
        × Delivers quoted (some (str (units "1"))) r)
api_request_iff_example =
    api_request_iff quoted printed answers page storage path options id (some (str (units "1")))

timed_out :
    (api_request quoted printed fails page storage path options id).0
    ≡ refused (fetch_error (units "AbortError") id)
unfolding api_request
timed_out = refl

api_request-refused_example :
    IsCoherent (fetch_error (units "AbortError") id)
    × (((name : Text) × (fails (request_of printed page storage path options id) ≡ failed name)
          × ((fetch_error (units "AbortError") id).status ≡ 0))
        ⊎ ((r : Response) × (fails (request_of printed page storage path options id) ≡ responded r)
            × ((fetch_error (units "AbortError") id).status ≡ r.status)
            × (is_ok r ≡ false)))
api_request-refused_example =
    api_request-refused quoted printed fails page storage path options id
      (fetch_error (units "AbortError") id) timed_out
