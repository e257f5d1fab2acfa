-- ===== src/Pages/Dashboard/Figures.antt =====
-- What the figures of frontend/src/pages/Dashboard.tsx say.
use agent_os_test.Prelude.{
  ◌≢◌, Option, not, Or-cases, And-cases, ◌||◌, ◌&&◌, ap, ltb, length, text_has_eq, ◌==◌, [], ◌∷◌,
  none_elim, Option-cases, ◌⊎◌, ◌≡◌, refl, sym, ◌↔◌, ℕ, Bool, true, false, none, some, List, Text,
  units, Bool-cases, some_inj, ◌∙◌, inl, inr, arith, if◌then◌else◌,
}
use agent_os_test.Types.System.{HealthResponse}
use agent_os_test.Api.Client.{ApiError}
use agent_os_test.Api.Client.Coherence.{IsCoherent}
use agent_os_test.Ui.Connection.{
  QueryResult, online, has_warnings, is_unwell, reachable, degraded, state_of,
}
use agent_os_test.Ui.Connection.Honest.{
  HasWarnings, state_of-IsWell, has_warnings_iff, degraded-some,
}
use agent_os_test.Ui.States.{TFunc, api_failure}
use agent_os_test.Pages.Dashboard.{
  FailableQuery, word, figure, length_or_zero, has_some_warning, is_ephemeral, api_degraded,
  failure_word, metric_value,
}

value_iff :
    (loading failed : Bool) (count n : ℕ) (said : Text)
    → ((if loading then word (units "…") else if failed then word said else figure count)
        ≡ figure n)
      ↔ ((loading ≡ false) × (failed ≡ false) × (n ≡ count))
value_iff loading failed count n said = ground arith

-- A number is shown exactly for a query that is not loading and has not failed, and then it is the
-- number of its items. A coherent error is shown by a word for its status: to sign in for 401, no
-- access for 403.
pub metric_value-figure {ℓ} :
    {A : Type ℓ} (t : TFunc) (q : FailableQuery (List A))
    → ((n : ℕ)
        → (metric_value t q ≡ figure n) ↔ (
            (q.result.is_loading ≡ false)
            × (q.result.is_error ≡ false)
            × (n ≡ length_or_zero q.result.data_value)))
      × ((e : ApiError)
          → IsCoherent e
          → (e.status ≡ 401 → failure_word t (api_failure e) ≡ t (units "common.signIn") none)
            × (e.status ≡ 403 → failure_word t (api_failure e) ≡ t (units "common.noAccess") none))
unfolding metric_value failure_word
metric_value-figure t q = (
  λ n.
      value_iff q.result.is_loading q.result.is_error (length_or_zero q.result.data_value) n
        (failure_word t q.error),
  λ e coherent. (
    λ unauthorized. rw (coherent.unauthorized.1 unauthorized) refl,
    λ forbidden.
        let allowed : e.is_unauthorized ≡ false = elim (Bool-cases e.is_unauthorized) [
          | inl h ↦ let status = coherent.unauthorized.0 h in absurd (omega arith)
          | inr h ↦ h
        ] in
        rw (allowed, coherent.forbidden.1 forbidden) refl,
  ),
)

some_warning_iff : (h : HealthResponse) → (has_some_warning h ≡ true) ↔ HasWarnings h
some_warning_iff h = elim (Option-cases h.warnings) [
  | inl missing ↦ rw missing (λ e. cc, λ (w, ws, e). none_elim e)
  | inr (l, given) ↦ rw given (listed l)
]
  where
    listed :
        (l : List Text)
        → (ltb 0 (length l) ≡ true) ↔ (
            (w : Text) × (ws : List Text) × (◌≡◌ {A = Option (List Text)} (some l) (some (w ∷ ws))))
    listed [] = (λ e. cc, λ (w, ws, e). let bad : [] ≡ w ∷ ws = some_inj e in cc)
    listed (w ∷ ws) = (λ _. (w, ws, refl), λ _. ground arith)

is_ephemeral_iff :
    (h : HealthResponse) → (is_ephemeral h ≡ true) ↔ (h.persistence ≡ some (units "ephemeral"))
is_ephemeral_iff h = elim (Option-cases h.persistence) [
  | inl missing ↦ rw missing (λ e. cc, λ e. none_elim e)
  | inr (p, given) ↦ rw given (
    λ e. ap some ((text_has_eq.is_same_iff p (units "ephemeral")).0 e),
    λ e. (text_has_eq.is_same_iff p (units "ephemeral")).1 (some_inj e),
  )
]

-- The answer gives a reason to be careful: its status, its warnings or its storage.
abbrev pub IsDegraded : HealthResponse → Type 0
IsDegraded h =
    (h.status ≢ units "ok") ⊎ (HasWarnings h ⊎ (h.persistence ≡ some (units "ephemeral")))

api_degraded-some :
    (q : QueryResult HealthResponse) (h : HealthResponse)
    → q.data_value ≡ some h
    → api_degraded q ≡ (not (h.status == units "ok") || (has_some_warning h || is_ephemeral h))
unfolding api_degraded
api_degraded-some q h e = rw (e, api_degraded) refl

differs_iff : (s t : Text) → (not (s == t) ≡ true) ↔ (s ≢ t)
differs_iff s t =
    let (same, equal) = text_has_eq.is_same_iff s t in
    (
      λ other e. let bad = equal e in ground arith,
      λ apart. elim (Bool-cases (s == t)) [ inl e ↦ absurd (apart (same e)) | inr e ↦ rw e refl ],
    )

IsDegraded-iff :
    (h : HealthResponse)
    → ((not (h.status == units "ok") || (has_some_warning h || is_ephemeral h)) ≡ true)
      ↔ IsDegraded h
IsDegraded-iff h =
    let odd = not (h.status == units "ok") in
    let rest = has_some_warning h || is_ephemeral h in
    let (to_odd, from_odd) = differs_iff h.status (units "ok") in
    let (to_warned, from_warned) = some_warning_iff h in
    let (to_stored, from_stored) = is_ephemeral_iff h in
    (
      λ e. elim (Or-cases odd rest e) [
        | inl status ↦ inl (to_odd status)
        | inr more ↦ elim (Or-cases (has_some_warning h) (is_ephemeral h) more) [
          | inl warned ↦ inr (inl (to_warned warned))
          | inr stored ↦ inr (inr (to_stored stored))
        ]
      ],
      λ d. elim d [
        | inl status ↦ rw (from_odd status) refl
        | inr (inl warned) ↦ let e = from_warned warned in ground arith
        | inr (inr stored) ↦ let e = from_stored stored in ground arith
      ],
    )

unwell-IsDegraded : (h : HealthResponse) → is_unwell h ≡ true → IsDegraded h
unwell-IsDegraded h e = elim (Or-cases (not (h.status == units "ok")) (has_warnings h) e) [
  | inl status ↦ inl ((differs_iff h.status (units "ok")).0 status)
  | inr warned ↦ inr (inl ((has_warnings_iff h).0 warned))
]

-- Where the dashboard has an answer, it shows the API as degraded exactly if the status is not `ok`,
-- or there is a warning, or the storage is ephemeral. What counts as degraded in the top bar,
-- the dashboard shows so too, and what the top bar shows as online, exactly if the storage is ephemeral.
pub api_degraded-online :
    (q : QueryResult HealthResponse) (h : HealthResponse)
    → q.data_value ≡ some h
    → ((api_degraded q ≡ true) ↔ IsDegraded h)
      × (degraded q ≡ true → api_degraded q ≡ true)
      × (state_of q ≡ online → (api_degraded q ≡ true) ↔ (h.persistence ≡ some (units "ephemeral")))
api_degraded-online q h at_h =
    let shown_iff : (api_degraded q ≡ true) ↔ IsDegraded h =
      rw (api_degraded-some q h at_h) (IsDegraded-iff h) in
    (
      shown_iff,
      λ amber.
          let e : (reachable q && is_unwell h) ≡ true = sym (degraded-some q h at_h) ∙ amber in
          shown_iff.1 (unwell-IsDegraded h (And-cases (reachable q) (is_unwell h) e).1),
      λ green.
          let (_, _, (g, at_g, ok, calm)) = (state_of-IsWell true q).0.0 green in
          let same : g ≡ h = some_inj (sym at_g ∙ at_h) in
          (
            λ e. elim (shown_iff.0 e) [
              | inl odd ↦ absurd (odd (rw same at ok))
              | inr (inl warned) ↦ absurd ((rw same at calm) warned)
              | inr (inr stored) ↦ stored
            ],
            λ stored. shown_iff.1 (inr (inr stored)),
          ),
    )
