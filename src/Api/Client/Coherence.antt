-- ===== src/Api/Client/Coherence.antt =====
-- The errors that a request can end with.
use agent_os_test.Prelude.{
  ◌≡◌, ◌≢◌, refl, ◌↔◌, ◌⊎◌, inl, inr, true, false, Option, none, some, [], ◌∷◌, Text, text_has_eq,
  units, ◌==◌, arith, Bool-cases,
}
use agent_os_test.Json.{Value}
use agent_os_test.Api.Client.{
  ApiError, ApiErrorOptions, api_error, Response, or_text, or_false, fetch_error, response_error,
}

-- The flags of an error agree with its status, its detail is not empty and it has a correlation id.
pub record IsCoherent (e : ApiError) : Type 0 where
  pub unauthorized : (e.is_unauthorized ≡ true) ↔ (e.status ≡ 401)
  pub forbidden : (e.is_forbidden ≡ true) ↔ (e.status ≡ 403)
  pub unavailable : (e.is_unavailable ≡ true) ↔ (e.status ≡ 503)
  pub not_found : (e.is_not_found ≡ true) ↔ (e.status ≡ 404)
  pub network : (e.is_network_error ≡ true) ⊎ (e.is_timeout ≡ true) → e.status ≡ 0
  pub worded : e.detail ≢ []
  pub traced : e.correlation_id ≢ none

or_text-ne : (a b : Text) → b ≢ [] → or_text a b ≢ []
or_text-ne [] b h e = h e
or_text-ne (c ∷ a) b h e = cc

api_error-IsCoherent :
    (opts : ApiErrorOptions)
    → opts.detail ≢ []
    → opts.correlation_id ≢ none
    → ((or_false opts.is_network_error ≡ true) ⊎ (or_false opts.is_timeout ≡ true)
        → opts.status ≡ 0)
    → IsCoherent (api_error opts)
unfolding api_error
api_error-IsCoherent opts worded traced network = record {
  unauthorized = ground arith;
  forbidden = ground arith;
  unavailable = ground arith;
  not_found = ground arith;
  network = network;
  worded = worded;
  traced = traced;
}

pub fetch_error-IsCoherent : (name id : Text) → IsCoherent (fetch_error name id)
unfolding fetch_error
fetch_error-IsCoherent name id = elim (Bool-cases (name == units "AbortError")) [
  | inl e ↦ rw e (api_error-IsCoherent _ (λ h. cc) (λ h. cc) (λ _. refl))
  | inr e ↦ rw e (api_error-IsCoherent _ (λ h. cc) (λ h. cc) (λ _. refl))
]

pub response_error-IsCoherent :
    (r : Response) (parsed : Option Value) (id : Text) → IsCoherent (response_error r parsed id)
unfolding response_error
response_error-IsCoherent r parsed id =
    api_error-IsCoherent _
      (or_text-ne _ _
        (or_text-ne _ (units "Request failed") (λ (h : units "Request failed" ≡ []). cc)))
      (λ (h : some id ≡ none). cc)
      (λ (h : (false ≡ true) ⊎ (false ≡ true)). elim h [ inl e ↦ cc | inr e ↦ cc ])

pub response_error-status :
    (r : Response) (parsed : Option Value) (id : Text)
    → (response_error r parsed id).status ≡ r.status
unfolding response_error api_error
response_error-status r parsed id = refl

pub fetch_error-status : (name id : Text) → (fetch_error name id).status ≡ 0
unfolding fetch_error api_error
fetch_error-status name id = ground arith
