-- ===== src/Integrations/AddServer/Submits.antt =====
-- What the dialog of frontend/src/components/integrations/AddMcpServerDialog.tsx sends.
use agent_os_test.Prelude.{
  ◌≡◌, ◌≢◌, refl, sym, ap, ◌∙◌, units, And-cases, ◌↔◌, ◌⊎◌, inl, inr, ◌&&◌, ◌||◌, true, none, some,
  [], ◌∷◌, Text, trim, is_empty, Bool-cases, Or-cases, some_inj, none_elim, arith,
}
use agent_os_test.Types.Connectors.{McpAuthType, McpServerCreate}
use agent_os_test.Integrations.AddServer.{Form, is_header, payload, submit}

-- The fields that the operator has to fill in are filled in.
pub record IsComplete (f : Form) : Type 0 where
  pub named : trim f.name ≢ []
  pub placed : trim f.endpoint ≢ []
  pub headed : f.auth_type ≡ McpAuthType.header → trim f.header_name ≢ []

empty_iff : (s : Text) → (is_empty s ≡ true) ↔ (s ≡ [])
empty_iff [] = (λ _. refl, λ _. refl)
empty_iff (c ∷ s) = (λ e. cc, λ e. cc)

header_iff : (a : McpAuthType) → (is_header a ≡ true) ↔ (a ≡ McpAuthType.header)
header_iff McpAuthType.none = ground arith
header_iff McpAuthType.bearer = ground arith
header_iff McpAuthType.header = (λ _. refl, λ _. refl)

abbrev Sent : Form → Type 0
Sent f = IsComplete f × (submit f ≡ (record f { problem = none }, some (payload f)))

abbrev Refused : Form → Type 0
Refused f =
    (IsComplete f → ⊥)
    × ((message : Text) × (submit f ≡ (record f { problem = some message }, none)))

submit-cases : (f : Form) → Sent f ⊎ Refused f
unfolding submit
submit-cases f = elim (Bool-cases (is_empty (trim f.name) || is_empty (trim f.endpoint))) [
  | inl blank ↦ inr (
    λ h. elim (Or-cases (is_empty (trim f.name)) (is_empty (trim f.endpoint)) blank) [
      | inl e ↦ h.named ((empty_iff (trim f.name)).0 e)
      | inr e ↦ h.placed ((empty_iff (trim f.endpoint)).0 e)
    ],
    (units "Name and endpoint are required.", simp blank refl),
  )
  | inr filled ↦ elim (Bool-cases (is_header f.auth_type && is_empty (trim f.header_name))) [
    | inl unheaded ↦
        let (by_header, e) =
          And-cases (is_header f.auth_type) (is_empty (trim f.header_name)) unheaded in
        inr (
          λ h.
              h.headed ((header_iff f.auth_type).0 by_header)
                ((empty_iff (trim f.header_name)).0 e),
          (units "Header name is required for header-based auth.", simp (filled, unheaded) refl),
        )
    | inr headed ↦ inl (
      record {
        named = λ e. let bad = (empty_iff (trim f.name)).1 e in ground arith;
        placed = λ e. let bad = (empty_iff (trim f.endpoint)).1 e in ground arith;
        headed = λ a e.
            let bad = (empty_iff (trim f.header_name)).1 e in
            let by_header = (header_iff f.auth_type).1 a in ground arith;
      },
      simp (filled, headed) refl,
    )
  ]
]

-- What may leave with the request.
abbrev pub Withholds : Form → McpServerCreate → Type 0
Withholds f r =
    (f.auth_type ≢ McpAuthType.header → r.header_name ≡ some none)
    × (f.auth_type ≡ McpAuthType.none → r.secret_value ≡ some none)

payload-Withholds : (f : Form) → Withholds f (payload f)
payload-Withholds f = (
  λ other. elim (Bool-cases (is_header f.auth_type)) [
    | inl by_header ↦ absurd (other ((header_iff f.auth_type).0 by_header))
    | inr differs ↦ rw differs
  ],
  λ open_server. rw open_server,
)

-- A form is sent exactly if its fields are filled in. The header's name is sent only for
-- authentication by a header, and a secret only for authentication of some kind. A form that is
-- not sent says why. No other field changes.
pub submit-IsComplete :
    (f : Form)
    → (IsComplete f → submit f ≡ (record f { problem = none }, some (payload f)))
      × ((r : McpServerCreate) → (submit f).1 ≡ some r → IsComplete f × Withholds f r)
      × ((submit f).1 ≡ none
          → (message : Text) × ((submit f).0 ≡ record f { problem = some message }))
submit-IsComplete f = elim (submit-cases f) [
  | inl (complete, e) ↦ (
    λ _. e,
    λ r sent.
        let same : payload f ≡ r = some_inj (sym (ap (λ (g, p). p) e) ∙ sent) in
        (complete, rw (sym same) (payload-Withholds f)),
    λ kept. none_elim (sym kept ∙ ap (λ (g, p). p) e),
  )
  | inr (incomplete, (message, e)) ↦ (
    λ complete. absurd (incomplete complete),
    λ r sent. none_elim (sym (ap (λ (g, p). p) e) ∙ sent),
    λ _. (message, ap (λ (g, p). g) e),
  )
]
