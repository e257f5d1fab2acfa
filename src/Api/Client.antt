-- ===== src/Api/Client.antt =====
-- frontend/src/lib/api/client.ts. `fetch`, `JSON.parse`, `JSON.stringify` and the fresh correlation
-- id are parameters; what the call does to its timer and to the network is a list of effects.
pub mod Coherence
pub mod Requests
pub mod Outcomes
mod Tests
use agent_os_test.Prelude.{
  ℕ, Bool, ◌&&◌, ◌||◌, true, false, not, Option, none, some, List, [], ◌∷◌, ◌++◌, Text, text_has_eq,
  units, eqb, leb, ◌==◌, is_empty, if◌then◌else◌,
}
use agent_os_test.Json.{Value, null, bool, num, str, arr, obj, Fields, end, field}
use agent_os_test.Browser.Storage.{Storage, Attempt, returned, thrown}
use agent_os_test.Api.Config.{Page, get_api_base_url, get_api_key}

pub record ApiError : Type 0 where
  pub status : ℕ
  pub detail : Text
  pub code : Option Text
  pub correlation_id : Option Text
  pub is_network_error : Bool
  pub is_timeout : Bool
  pub is_unauthorized : Bool
  pub is_forbidden : Bool
  pub is_unavailable : Bool
  pub is_not_found : Bool

-- The argument of the constructor.
pub record ApiErrorOptions : Type 0 where
  pub status : ℕ
  pub detail : Text
  pub code : Option (Option Text)
  pub correlation_id : Option Text
  pub is_network_error : Option Bool
  pub is_timeout : Option Bool

abbrev pub or_null : Option (Option Text) → Option Text
or_null none = none
or_null (some o) = o

abbrev pub or_false : Option Bool → Bool
or_false none = false
or_false (some b) = b

-- `new ApiError(opts)`
pub api_error : ApiErrorOptions → ApiError
api_error opts = record {
  status = opts.status;
  detail = opts.detail;
  code = or_null opts.code;
  correlation_id = opts.correlation_id;
  is_network_error = or_false opts.is_network_error;
  is_timeout = or_false opts.is_timeout;
  is_unauthorized = eqb opts.status 401;
  is_forbidden = eqb opts.status 403;
  is_unavailable = eqb opts.status 503;
  is_not_found = eqb opts.status 404;
}

pub data Method : Type 0 where
  get post delete patch put : Method

pub record RequestOptions : Type 0 where
  pub method : Option Method
  pub body : Option Value
  pub timeout_ms : Option ℕ
  pub skip_auth : Option Bool

abbrev pub default_timeout_ms : ℕ
default_timeout_ms = 30000

-- What is handed to `fetch`, less the signal.
pub record Request : Type 0 where
  pub url : Text
  pub method : Method
  pub headers : List (Text × Text)
  pub body : Option Text

-- A response, with the result of reading its text.
pub record Response : Type 0 where
  pub status : ℕ
  pub status_text : Text
  pub correlation_header : Option Text
  pub text : Attempt Text

-- How a call of `fetch` ends: with a response, or with an error of that name.
pub data Fetched : Type 0 where
  responded : Response → Fetched
  failed : Text → Fetched

pub data Effect : Type 0 where
  start_timer : ℕ → Effect
  send : Request → Effect
  clear_timer : Effect

-- How the promise settles. `resolved none` is `undefined`; `raised` is an error that is no
-- `ApiError`, from reading the body.
pub data Outcome : Type 0 where
  resolved : Option Value → Outcome
  refused : ApiError → Outcome
  raised : Outcome

-- `replace(/\/$/, "")`
pub strip_slash : Text → Text
strip_slash [] = []
strip_slash (c ∷ []) = if eqb c b'/' then [] else c ∷ []
strip_slash (c ∷ (d ∷ s)) = c ∷ strip_slash (d ∷ s)

-- `response.ok`
abbrev pub is_ok : Response → Bool
is_ok r = leb 200 r.status && leb r.status 299

-- `a || b` of strings
abbrev pub or_text : Text → Text → Text
or_text [] b = b
or_text (c ∷ s) b = c ∷ s

-- The field of that name of a parsed object.
pub field_of : Text → Fields → Option Value
field_of name end = none
field_of name (field key v fs) = if name == key then some v else field_of name fs

abbrev pub as_string : Option Value → Option Text
as_string (some (str s)) = some s
as_string _ = none

-- The string under a name, of a parsed body. An array has none.
pub string_field : Text → Option Value → Option Text
unfolding field_of
string_field name (some (obj fs)) = as_string (field_of name fs)
string_field name _ = none

abbrev pub text_or_empty : Option Text → Text
text_or_empty none = []
text_or_empty (some s) = s

-- The headers, in the order of their assignment.
pub headers_of : Storage → RequestOptions → Text → List (Text × Text)
headers_of st options correlation_id =
    let key = get_api_key st in
    (units "Accept", units "application/json")
    ∷ ((units "X-Correlation-ID", correlation_id)
        ∷ ((elim options.body [
          | none ↦ []
          | some _ ↦ (units "Content-Type", units "application/json") ∷ []
        ])
            ++ (if not (or_false options.skip_auth) && not (is_empty key)
                then (units "X-API-Key", key) ∷ []
                else [])))

unfoldable pub request_of : (Value → Text) → Page → Storage → Text → RequestOptions → Text → Request
request_of stringify p st path options correlation_id = record {
  url = strip_slash (get_api_base_url p st) ++ path;
  method = elim options.method [ none ↦ get | some m ↦ m ];
  headers = headers_of st options correlation_id;
  body = elim options.body [ none ↦ none | some v ↦ some (stringify v) ];
}

-- The `catch` around `fetch`.
pub fetch_error : Text → Text → ApiError
fetch_error name correlation_id =
    if name == units "AbortError"
    then api_error (record {
      status = 0;
      detail = units "Request timed out";
      code = none;
      correlation_id = some correlation_id;
      is_network_error = none;
      is_timeout = some true;
    })
    else api_error (record {
      status = 0;
      detail = units "Unable to reach the THYNACT API. Check your network or API configuration.";
      code = none;
      correlation_id = some correlation_id;
      is_network_error = some true;
      is_timeout = none;
    })

-- The error of a response that is not `ok`.
pub response_error : Response → Option Value → Text → ApiError
response_error r parsed correlation_id = api_error (record {
  status = r.status;
  detail =
      or_text (text_or_empty (string_field (units "detail") parsed))
        (or_text r.status_text (units "Request failed"));
  code = some (string_field (units "code") parsed);
  correlation_id = some correlation_id;
  is_network_error = none;
  is_timeout = none;
})

-- The text of a response as a value: `undefined`, what it parses to, or itself.
pub parsed_text : (Text → Option Value) → Text → Option Value
parsed_text parse_json [] = none
parsed_text parse_json (c ∷ s) = elim (parse_json (c ∷ s)) [
  | none ↦ some (str (c ∷ s))
  | some v ↦ some v
]

-- What follows a response.
pub settle : (Text → Option Value) → Response → Text → Outcome
settle parse_json r correlation_id =
    let response_correlation_id = or_text (text_or_empty r.correlation_header) correlation_id in
    if eqb r.status 204 then resolved none else elim r.text [
      | thrown ↦ raised
      | returned text ↦
          if not (is_ok r)
          then refused (response_error r (parsed_text parse_json text) response_correlation_id)
          else resolved (parsed_text parse_json text)
    ]

module _ (parse_json : Text → Option Value) (stringify : Value → Text)
    (fetch : Request → Fetched) where
  -- `apiRequest`
  pub api_request : Page → Storage → Text → RequestOptions → Text → Outcome × List Effect
  api_request p st path options correlation_id =
      let request = request_of stringify p st path options correlation_id in
      let timeout_ms : ℕ = elim options.timeout_ms [ none ↦ default_timeout_ms | some ms ↦ ms ] in
      let effects = start_timer timeout_ms ∷ (send request ∷ (clear_timer ∷ [])) in
      elim (fetch request) [
        | failed name ↦ (refused (fetch_error name correlation_id), effects)
        | responded r ↦ (settle parse_json r correlation_id, effects)
      ]
