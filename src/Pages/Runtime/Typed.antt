-- ===== src/Pages/Runtime/Typed.antt =====
-- What had been typed when frontend/src/pages/Runtime.tsx sends a request.
use agent_os_test.Prelude.{
  ◌≡◌, ◌≢◌, ◌⊎◌, refl, sym, ◌++◌, units, trim, some_inj, true, Option, none, some, List, [], ◌∷◌,
  Text, is_empty, Bool-cases, inl, inr,
}
use mathlib.Core.List.{Memᴰ}
use agent_os_test.Json.{Value, obj, end}
use agent_os_test.Pages.Runtime.{
  Request, Runtime, key_or_null, read_payload, request_of, run_with, Event, change_provider,
  change_workflow, change_payload, change_key, press, retry,
}

-- What stands in the fields of the form.
pub record Form : Type 0 where
  pub provider : Text
  pub workflow : Text
  pub payload_text : Text
  pub idempotency_key : Text

-- What the operator has typed, the latest event first.
abbrev pub enter : Event → Form → Form
enter (change_provider text) f = record f { provider = text }
enter (change_workflow text) f = record f { workflow = text }
enter (change_payload text) f = record f { payload_text = text }
enter (change_key text) f = record f { idempotency_key = text }
enter _ f = f

unfoldable pub typed : List Event → Form
typed [] = record {
  provider = units "n8n";
  workflow = [];
  payload_text = units "{}";
  idempotency_key = [];
}
typed (e ∷ es) = enter e (typed es)

-- The request has the fields of the form: the empty object for a blank payload and else what it
-- parses to, and a key if one is entered.
abbrev pub Asks : (Text → Option Value) → Form → Request → Type 0
Asks parse_json f r =
    (r.provider ≡ f.provider)
    × (r.workflow ≡ f.workflow)
    × (trim f.payload_text ≡ [] → r.payload ≡ obj end)
    × (trim f.payload_text ≢ [] → parse_json f.payload_text ≡ some r.payload)
    × (f.idempotency_key ≡ [] → r.idempotency_key ≡ none)
    × (f.idempotency_key ≢ [] → r.idempotency_key ≡ some f.idempotency_key)

-- A button was pressed that sends, and the request is what had been typed before.
abbrev pub AskedIn : (Text → Option Value) → List Event → Request → Type 0
AskedIn parse_json es r =
    (e : Event) × (before after : List Event) × (es ≡ after ++ (e ∷ before))
    × ((e ≡ press) ⊎ (e ≡ retry))
    × Asks parse_json (typed before) r

abbrev pub form_of : Runtime → Form
form_of s = record {
  provider = s.provider;
  workflow = s.workflow;
  payload_text = s.payload_text;
  idempotency_key = s.idempotency_key;
}

read_blank :
    (parse_json : Text → Option Value) (text : Text) (payload : Value)
    → read_payload parse_json text ≡ some payload
    → (trim text ≡ [] → payload ≡ obj end) × (trim text ≢ [] → parse_json text ≡ some payload)
read_blank parse_json text payload h = (
  λ blank. let e : some (obj end) ≡ some payload = rw blank at h in sym (some_inj e),
  λ filled. elim (Bool-cases (is_empty (trim text))) [
    | inl e ↦ absurd (filled (empty (trim text) e))
    | inr e ↦ rw e at h
  ],
)
  where
    empty : (t : Text) → is_empty t ≡ true → t ≡ []
    empty [] e = refl
    empty (c ∷ t) e = cc

key_given :
    (key : Text) → (key ≡ [] → key_or_null key ≡ none) × (key ≢ [] → key_or_null key ≡ some key)
key_given [] = (λ _. refl, λ n. absurd (n refl))
key_given (c ∷ key) = (λ e. cc, λ _. refl)

pub request_of-Asks :
    (parse_json : Text → Option Value) (s : Runtime) (payload : Value)
    → read_payload parse_json s.payload_text ≡ some payload
    → Asks parse_json (form_of s) (request_of s payload)
request_of-Asks parse_json s payload h =
    let (blank, filled) = read_blank parse_json s.payload_text payload h in
    let (missing, given) = key_given s.idempotency_key in
    (refl, refl, blank, filled, missing, given)

pub run_with-form : (p : Option Value) (s : Runtime) → form_of (run_with p s) ≡ form_of s
run_with-form none s = refl
run_with-form (some payload) s = refl

pub run_with-sent :
    (p : Option Value) (s : Runtime) (P : Request → Type 0)
    → ((payload : Value) → p ≡ some payload → P (request_of s payload))
    → ((r : Request) → Memᴰ r s.sent → P r)
    → (r : Request) → Memᴰ r (run_with p s).sent
    → P r
run_with-sent none s P h k = k
run_with-sent (some payload) s P h k =
    λ r m. elim m [ Memᴰ.head same ↦ rw same (h payload refl) | Memᴰ.tail old ↦ k r old ]
