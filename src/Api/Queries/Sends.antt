-- ===== src/Api/Queries/Sends.antt =====
-- What is handed to `fetch` for the hooks of frontend/src/lib/api/queries.ts, by the client of
-- frontend/src/lib/api/client.ts.
use agent_os_test.Prelude.{
  ◌≡◌, ◌≢◌, refl, sym, ap, ◌∙◌, true, false, Option, none, some, List, [], ◌∷◌, ◌++◌, Text,
  text_has_eq, units, is_empty, lookup, Option-cases, Bool-cases, inl, inr, starts_with, All, eqb,
  eqb_iff, And-cases,
}
use agent_os_test.Json.{Value}
use agent_os_test.Browser.Storage.{Storage}
use agent_os_test.Api.Config.{Page, get_api_base_url, get_api_key}
use agent_os_test.Api.Client.{Method, get, or_false, strip_slash, request_of}
use agent_os_test.Api.Client.Requests.{request_of-headers}
use agent_os_test.Api.Queries.{Call}
use agent_os_test.Api.Queries.Guards.{Input, calls, is_read, IsSafe, calls-IsSafe}

absolute_path :
    (path : Text) → starts_with path (units "/") ≡ true → (rest : Text) × (path ≡ b'/' ∷ rest)
unfolding starts_with
absolute_path [] h = cc
absolute_path (c ∷ rest) h =
    let (slash, _) = And-cases (eqb c b'/') _ h in
    (rest, ap (λ d. d ∷ rest) ((eqb_iff c b'/').0 slash))

method_of : Option Method → Method
method_of none = get
method_of (some m) = m

changes : (m : Option Method) → method_of m ≢ get → is_read m ≡ false
unfolding method_of
changes none n = absurd (n refl)
changes (some Method.get) n = absurd (n refl)
changes (some Method.post) n = refl
changes (some Method.delete) n = refl
changes (some Method.patch) n = refl
changes (some Method.put) n = refl

reads : (m : Option Method) → method_of m ≡ get → is_read m ≡ true
unfolding method_of
reads none e = refl
reads (some Method.get) e = refl
reads (some Method.post) e = cc
reads (some Method.delete) e = cc
reads (some Method.patch) e = cc
reads (some Method.put) e = cc

filled : (key : Text) → key ≢ [] → is_empty key ≡ false
filled [] n = absurd (n refl)
filled (c ∷ key) n = refl

module _ (stringify : Value → Text) (p : Page) (st : Storage) (correlation_id : Text) where
  -- The request goes to a path below the address in use. If it is not by `GET` and there is a stored
  -- key, it has that key in its header, and without a stored key no request has the header. If it is
  -- by `GET`, it has no body and no content type.
  pub record IsGuarded (c : Call) : Type 0 where
    pub absolute :
        (rest : Text) × ((request_of stringify p st c.0 c.1 correlation_id).url
          ≡ strip_slash (get_api_base_url p st) ++ (b'/' ∷ rest))
    pub keyed :
        (request_of stringify p st c.0 c.1 correlation_id).method ≢ get
        → get_api_key st ≢ []
        → lookup (units "X-API-Key") (request_of stringify p st c.0 c.1 correlation_id).headers
          ≡ some (get_api_key st)
    pub keyless :
        get_api_key st ≡ []
        → lookup (units "X-API-Key") (request_of stringify p st c.0 c.1 correlation_id).headers
          ≡ none
    pub bodiless :
        (request_of stringify p st c.0 c.1 correlation_id).method ≡ get
        → ((request_of stringify p st c.0 c.1 correlation_id).body ≡ none)
          × (lookup
                (units "Content-Type")
                (request_of stringify p st c.0 c.1 correlation_id).headers
              ≡ none)

  request_of-method :
      (c : Call) → (request_of stringify p st c.0 c.1 correlation_id).method ≡ method_of c.1.method
  unfolding request_of method_of
  request_of-method c = elim (Option-cases c.1.method) [
    | inl missing ↦ rw missing refl
    | inr (m, given) ↦ rw given refl
  ]

  request_of-IsGuarded : (c : Call) → IsSafe c → IsGuarded c
  unfolding request_of
  request_of-IsGuarded c safe =
      let (key_header, _, typed) = request_of-headers stringify p st c.0 c.1 correlation_id in
      let (rest, e) = absolute_path c.0 safe.absolute in
      record {
        absolute = (rest, ap (λ t. strip_slash (get_api_base_url p st) ++ t) e);
        keyed = λ other stored.
            let sent : or_false c.1.skip_auth ≡ false =
              safe.keyed (changes c.1.method (λ m. other (request_of-method c ∙ m))) in
            let full = filled (get_api_key st) stored in rw (sent, full) at key_header;
        keyless = λ missing. elim (Bool-cases (or_false c.1.skip_auth)) [
          | inl e ↦ rw e at key_header
          | inr e ↦ rw (e, missing) at key_header
        ];
        bodiless = λ by_get.
            let empty : c.1.body ≡ none =
              safe.bodiless (reads c.1.method (sym (request_of-method c) ∙ by_get)) in
            let none_sent : (request_of stringify p st c.0 c.1 correlation_id).body ≡ none =
              rw empty refl in
            (none_sent, typed.1 none_sent);
      }

  each-IsGuarded : (cs : List Call) → All IsSafe cs → All IsGuarded cs
  each-IsGuarded [] h = tt
  each-IsGuarded (c ∷ cs) (h, hs) = (request_of-IsGuarded c h, each-IsGuarded cs hs)

  -- Every request that a hook makes goes to a path below the address in use. One that is not by
  -- `GET` carries the stored key in its header if there is one; none carries a key if none is
  -- stored. One by `GET` has no body and no content type.
  pub calls-IsGuarded : (encode : Text → Text) (i : Input) → All IsGuarded (calls encode i)
  calls-IsGuarded encode i = each-IsGuarded (calls encode i) (calls-IsSafe encode i)
