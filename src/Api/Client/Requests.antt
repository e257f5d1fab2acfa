-- ===== src/Api/Client/Requests.antt =====
-- What a request carries.
use agent_os_test.Prelude.{
  ℕ, ◌≡◌, ◌≢◌, refl, ap, ◌∙◌, ◌↔◌, Bool, ◌&&◌, true, false, not, Option, none, some, List, [], ◌∷◌,
  ◌++◌, Text, text_has_eq, text_eq, units, is_empty, lookup, if◌then◌else◌,
}
use agent_os_test.Json.{Value}
use agent_os_test.Browser.Storage.{Storage}
use agent_os_test.Api.Config.{Page, get_api_base_url, get_api_key}
use agent_os_test.Api.Client.{
  RequestOptions, Request, or_false, strip_slash, headers_of, request_of,
}

strip_slash-cons : (c : ℕ) (s : Text) → s ≢ [] → strip_slash (c ∷ s) ≡ c ∷ strip_slash s
unfolding strip_slash
strip_slash-cons c [] h = absurd (h refl)
strip_slash-cons c (d ∷ s) h = refl

snoc-ne-nil : (s : Text) (c : ℕ) → s ++ (c ∷ []) ≢ []
snoc-ne-nil [] c h = cc
snoc-ne-nil (d ∷ s) c h = cc

-- One slash at the end of an address makes no difference.
strip_slash-snoc : (s : Text) → strip_slash (s ++ (b'/' ∷ [])) ≡ s
strip_slash-snoc [] = unfold strip_slash in refl
strip_slash-snoc (c ∷ s) =
    strip_slash-cons c (s ++ (b'/' ∷ [])) (snoc-ne-nil s b'/')
    ∙ ap (λ t. c ∷ t) (strip_slash-snoc s)

-- If the base address is written with one slash at its end, the request goes to what stands before
-- it, followed by the path.
pub request_of-url :
    (stringify : Value → Text) (p : Page) (st : Storage) (path base : Text)
    (options : RequestOptions) (correlation_id : Text)
    → get_api_base_url p st ≡ base ++ (b'/' ∷ [])
    → (request_of stringify p st path options correlation_id).url ≡ base ++ path
unfolding request_of
request_of-url stringify p st path base options correlation_id h =
    ap (λ t. strip_slash t ++ path) h ∙ ap (λ t. t ++ path) (strip_slash-snoc base)

abbrev header : Text → Request → Option Text
header name r = lookup name r.headers

-- The headers after the first two, with the tests as variables.
optional_headers : Option Value → Bool → Text → List (Text × Text)
optional_headers body keyed key =
    (elim body [ none ↦ [] | some _ ↦ (units "Content-Type", units "application/json") ∷ [] ])
    ++ (if keyed then (units "X-API-Key", key) ∷ [] else [])

optional_headers-key :
    (body : Option Value) (keyed : Bool) (key : Text)
    → lookup (units "X-API-Key") (optional_headers body keyed key)
      ≡ (if keyed then some key else none)
unfolding optional_headers lookup text_eq
optional_headers-key none true key = refl
optional_headers-key none false key = refl
optional_headers-key (some v) true key = refl
optional_headers-key (some v) false key = refl

optional_headers-type :
    (stringify : Value → Text) (body : Option Value) (keyed : Bool) (key : Text)
    → (lookup (units "Content-Type") (optional_headers body keyed key) ≡ none)
      ↔ (◌≡◌ {A = Option Text} (elim body [ none ↦ none | some v ↦ some (stringify v) ]) none)
unfolding optional_headers lookup text_eq
optional_headers-type stringify none true key = (λ _. refl, λ _. refl)
optional_headers-type stringify none false key = (λ _. refl, λ _. refl)
optional_headers-type stringify (some v) true key = (λ e. cc, λ e. cc)
optional_headers-type stringify (some v) false key = (λ e. cc, λ e. cc)

-- A request carries the stored key exactly if the call does not skip authentication and there is a
-- key. It always carries the correlation id, and a content type exactly if it has a body.
pub request_of-headers :
    (stringify : Value → Text) (p : Page) (st : Storage) (path : Text) (options : RequestOptions)
    (correlation_id : Text)
    → let r = request_of stringify p st path options correlation_id in
      (lookup (units "X-API-Key") r.headers ≡ (
        if not (or_false options.skip_auth) && not (is_empty (get_api_key st))
        then some (get_api_key st)
        else none))
      × (lookup (units "X-Correlation-ID") r.headers ≡ some correlation_id)
      × ((lookup (units "Content-Type") r.headers ≡ none) ↔ (r.body ≡ none))
unfolding request_of headers_of lookup text_eq
request_of-headers stringify p st path options correlation_id =
    let keyed = not (or_false options.skip_auth) && not (is_empty (get_api_key st)) in
    let key = get_api_key st in
    (
      unfold optional_headers in optional_headers-key options.body keyed key,
      refl,
      unfold optional_headers in optional_headers-type stringify options.body keyed key,
    )
