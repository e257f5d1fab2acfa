-- ===== src/Api/Client/Outcomes.antt =====
-- How a request settles.
use agent_os_test.Prelude.{
  ◌≤◌, ◌≡◌, ◌≢◌, refl, sym, ap, ◌∙◌, And-cases, leb→le, ◌↔◌, ◌⊎◌, inl, inr, true, false, Option,
  none, Text, text_has_eq, eqb, leb, arith, Bool-cases,
}
use mathlib.Core.Path.{subst}
use agent_os_test.Json.{Value}
use agent_os_test.Browser.Storage.{Storage, Attempt, returned, thrown}
use agent_os_test.Api.Config.{Page}
use agent_os_test.Api.Client.{
  ApiError, RequestOptions, Request, Response, Fetched, responded, failed, Outcome, resolved,
  refused, raised, is_ok, or_text, text_or_empty, request_of, fetch_error, parsed_text, settle,
  api_request,
}
use agent_os_test.Api.Client.Coherence.{
  IsCoherent, fetch_error-IsCoherent, response_error-IsCoherent, fetch_error-status,
  response_error-status,
}

Attempt-cases : (a : Attempt Text) → (a ≡ thrown) ⊎ ((t : Text) × (a ≡ returned t))
Attempt-cases thrown = inl refl
Attempt-cases (returned t) = inr (t, refl)

Fetched-cases :
    (f : Fetched) → ((name : Text) × (f ≡ failed name)) ⊎ ((r : Response) × (f ≡ responded r))
Fetched-cases (failed name) = inl (name, refl)
Fetched-cases (responded r) = inr (r, refl)

-- What a response can settle as.
data Settles (parse_json : Text → Option Value) (r : Response) (o : Outcome) : Type 0 where
  empty : r.status ≡ 204 → o ≡ resolved none → Settles parse_json r o
  unread : r.status ≢ 204 → r.text ≡ thrown → o ≡ raised → Settles parse_json r o
  wrong :
      (e : ApiError)
      → IsCoherent e
      → e.status ≡ r.status
      → is_ok r ≡ false
      → o ≡ refused e
      → Settles parse_json r o
  read :
      (t : Text)
      → r.status ≢ 204
      → r.text ≡ returned t
      → is_ok r ≡ true
      → o ≡ resolved (parsed_text parse_json t)
      → Settles parse_json r o

settle-Settles :
    (parse_json : Text → Option Value) (r : Response) (id : Text)
    → Settles parse_json r (settle parse_json r id)
unfolding settle
settle-Settles parse_json r id = elim (Bool-cases (eqb r.status 204)) [
  | inl no_content ↦ empty (ground arith) (ground arith)
  | inr content ↦ elim (Attempt-cases r.text) [
    | inl gone ↦ unread (ground arith) gone (rw (content, gone) refl)
    | inr (t, got) ↦ elim (Bool-cases (is_ok r)) [
      | inl ok ↦ read t (ground arith) got ok (rw (content, got, ok) refl)
      | inr bad ↦
          wrong _
            (response_error-IsCoherent r (parsed_text parse_json t)
              (or_text (text_or_empty r.correlation_header) id))
            (response_error-status r (parsed_text parse_json t)
              (or_text (text_or_empty r.correlation_header) id))
            bad (simp (content, got, bad) refl)
    ]
  ]
]

-- What the network answered if the call resolves to `v`.
abbrev pub Delivers : (Text → Option Value) → Option Value → Response → Type 0
Delivers parse_json v r =
    ((r.status ≡ 204) × (v ≡ none))
    ⊎ ((t : Text) × (r.status ≢ 204)
        × (200 ≤ r.status)
        × (r.status ≤ 299)
        × (r.text ≡ returned t)
        × (v ≡ parsed_text parse_json t))

resolved_inj : {v w : Option Value} → resolved v ≡ resolved w → v ≡ w
resolved_inj h = cc

refused_inj : {d e : ApiError} → refused d ≡ refused e → d ≡ e
refused_inj h = cc

settled-Delivers :
    (parse_json : Text → Option Value) (r : Response) (o : Outcome) (v : Option Value)
    → Settles parse_json r o
    → o ≡ resolved v
    → Delivers parse_json v r
settled-Delivers parse_json r o v (empty s d) h = inl (s, resolved_inj (sym h ∙ d))
settled-Delivers parse_json r o v (unread s t d) h = absurd (cc)
settled-Delivers parse_json r o v (wrong e c s b d) h = absurd (cc)
settled-Delivers parse_json r o v (read t s got ok d) h =
    let both = And-cases (leb 200 r.status) (leb r.status 299) ok in
    inr (t, s, leb→le _ _ both.0, leb→le _ _ both.1, got, resolved_inj (sym h ∙ d))

Delivers-settle :
    (parse_json : Text → Option Value) (r : Response) (id : Text) (v : Option Value)
    → Delivers parse_json v r
    → settle parse_json r id ≡ resolved v
unfolding settle
Delivers-settle parse_json r id v (inl (s, w)) = simp (s, w) refl
Delivers-settle parse_json r id v (inr (t, s, low, high, got, w)) =
    let ok : is_ok r ≡ true = ground arith in
    let content : eqb r.status 204 ≡ false = ground arith in simp (content, got, ok, w) refl

settled-refused :
    (parse_json : Text → Option Value) (r : Response) (o : Outcome) (e : ApiError)
    → Settles parse_json r o
    → o ≡ refused e
    → IsCoherent e × (e.status ≡ r.status) × (is_ok r ≡ false)
settled-refused parse_json r o e (empty s d) h = absurd (cc)
settled-refused parse_json r o e (unread s t d) h = absurd (cc)
settled-refused parse_json r o e (wrong d c s b w) h =
    let same = refused_inj (sym w ∙ h) in
    (subst IsCoherent same c, ap (λ (x : ApiError). x.status) (sym same) ∙ s, b)
settled-refused parse_json r o e (read t s got ok d) h = absurd (cc)

module _ (parse_json : Text → Option Value) (stringify : Value → Text)
    (fetch : Request → Fetched) where
  -- A call of `api_request` resolves to a value exactly if the network answered with a response of
  -- status 204 and the value is `undefined`, or with another response of a status from 200 to 299
  -- whose text could be read and the value is that text, parsed.
  pub api_request_iff :
      (p : Page) (st : Storage) (path : Text) (options : RequestOptions) (id : Text)
      (v : Option Value)
      → ((api_request parse_json stringify fetch p st path options id).0 ≡ resolved v) ↔ (
          (r : Response) × (fetch (request_of stringify p st path options id) ≡ responded r)
          × Delivers parse_json v r)
  unfolding api_request
  api_request_iff p st path options id v = (
    λ h. elim (Fetched-cases (fetch (request_of stringify p st path options id))) [
      | inl (name, e) ↦ absurd (cc)
      | inr (r, e) ↦ (
        r,
        e,
        settled-Delivers parse_json r (settle parse_json r id) v (settle-Settles parse_json r id)
            (cc),
      )
    ],
    λ h. rw (h.1, api_request) (Delivers-settle parse_json h.0 id v h.2),
  )

  -- If a call of `api_request` ends with an `ApiError`, that error is coherent, and either the
  -- network failed and the status is 0, or the network answered with a response that is not `ok`
  -- and the error has its status.
  pub api_request-refused :
      (p : Page) (st : Storage) (path : Text) (options : RequestOptions) (id : Text) (e : ApiError)
      → (api_request parse_json stringify fetch p st path options id).0 ≡ refused e
      → IsCoherent e
        × (((name : Text) × (fetch (request_of stringify p st path options id) ≡ failed name)
              × (e.status ≡ 0))
            ⊎ ((r : Response) × (fetch (request_of stringify p st path options id) ≡ responded r)
                × (e.status ≡ r.status)
                × (is_ok r ≡ false)))
  unfolding api_request
  api_request-refused p st path options id e h =
      elim (Fetched-cases (fetch (request_of stringify p st path options id))) [
        | inl (name, f) ↦
            let same : fetch_error name id ≡ e = cc in
            (
              subst IsCoherent same (fetch_error-IsCoherent name id),
              inl (
                name,
                f,
                ap (λ (x : ApiError). x.status) (sym same) ∙ fetch_error-status name id,
              ),
            )
        | inr (r, f) ↦
            let it =
              settled-refused parse_json r (settle parse_json r id) e
                (settle-Settles parse_json r id) (cc) in
            (it.0, inr (r, f, it.1, it.2))
      ]
