-- ===== src/Pages/Dashboard.antt =====
-- The figures of the dashboard: frontend/src/pages/Dashboard.tsx. `t` is a parameter; a figure is
-- a text or a number.
pub mod Figures
mod Tests
use agent_os_test.Prelude.{
  ℕ, ◌+◌, Bool, ◌&&◌, ◌||◌, true, false, not, Option, none, some, is_some, List, [], ◌∷◌, ◌++◌,
  Text, text_has_eq, units, ◌==◌, ltb, length, take, is_empty, if◌then◌else◌,
}
use mathlib.Core.List.{reverse}
use agent_os_test.Types.System.{HealthResponse}
use agent_os_test.Api.Client.{ApiError, or_text}
use agent_os_test.I18n.Interpolate.{Vars}
use agent_os_test.Session.History.{Store, entries, task, workflow_run, runtime_execution}
use agent_os_test.Ui.Connection.{QueryResult, HeartbeatState, online, connecting, offline}
use agent_os_test.Ui.States.{TFunc, Thrown, api_failure, failure, anything}

-- A query with its error.
pub record FailableQuery {ℓ} (A : Type ℓ) : Type ℓ where
  pub result : QueryResult A
  pub error : Thrown

pub data Figure : Type 0 where
  word : Text → Figure
  figure : ℕ → Figure

pub data MetricTone : Type 0 where
  amber neutral red green : MetricTone

-- `recentAudit`
abbrev pub recent_audit {ℓ} : {A : Type ℓ} → Option (List A) → List A
recent_audit none = []
recent_audit (some events) = take 6 (reverse events)

abbrev pub length_or_zero {ℓ} : {A : Type ℓ} → Option (List A) → ℕ
length_or_zero none = 0
length_or_zero (some xs) = length xs

-- `(health.data?.warnings?.length ?? 0) > 0`
abbrev pub has_some_warning : HealthResponse → Bool
has_some_warning h = ltb 0 (length_or_zero h.warnings)

-- `health.data?.persistence === "ephemeral"`
abbrev pub is_ephemeral : HealthResponse → Bool
is_ephemeral h = elim h.persistence [ none ↦ false | some p ↦ p == units "ephemeral" ]

-- `apiDegraded`
unfoldable pub api_degraded : QueryResult HealthResponse → Bool
api_degraded q = elim q.data_value [
  | none ↦ false
  | some h ↦ not (h.status == units "ok") || (has_some_warning h || is_ephemeral h)
]

-- The state that the heartbeat of the metric shows.
abbrev pub heartbeat_of : QueryResult HealthResponse → HeartbeatState
heartbeat_of q =
    if q.is_loading then connecting else if is_some q.data_value then online else offline

-- The tone of the metric of the API.
abbrev pub api_tone : QueryResult HealthResponse → MetricTone
api_tone q = if not (is_some q.data_value) then red else if api_degraded q then amber else green

-- The sum of the session's entries.
abbrev pub session_total : Store → ℕ
session_total s =
    length (entries s task)
    + (length (entries s workflow_run) + length (entries s runtime_execution))

module _ (t : TFunc) where
  -- The word for a query that failed.
  unfoldable pub failure_word : Thrown → Text
  failure_word (api_failure e) =
      if e.is_unauthorized
      then t (units "common.signIn") none
      else if e.is_forbidden
      then t (units "common.noAccess") none
      else if e.is_network_error || e.is_timeout
      then t (units "common.offline") none
      else t (units "common.unavailable") none
  failure_word (failure message) = t (units "common.unavailable") none
  failure_word anything = t (units "common.unavailable") none

  -- `metricValue`
  unfoldable pub metric_value {ℓ} : {A : Type ℓ} → FailableQuery (List A) → Figure
  unfolding failure_word
  metric_value q =
      if q.result.is_loading
      then word (units "…")
      else if q.result.is_error
      then word (failure_word q.error)
      else figure (length_or_zero q.result.data_value)

  -- `metricTone`
  abbrev pub metric_tone {ℓ} : {A : Type ℓ} → FailableQuery (List A) → MetricTone
  metric_tone q = if q.result.is_error then amber else neutral

  -- `err.code ? t(...) || err.detail : err.detail`; an empty code counts as none.
  abbrev pub unavailable_hint : ApiError → Text
  unavailable_hint e = elim e.code [
    | none ↦ e.detail
    | some code ↦
        if is_empty code then e.detail else or_text (t (units "errorCodes." ++ code) none) e.detail
  ]

  -- `metricHint`
  unfoldable pub metric_hint {ℓ} : {A : Type ℓ} → FailableQuery (List A) → Text → Option Text
  metric_hint q action = if not q.result.is_error then none else elim q.error [
    | api_failure e ↦
        if e.is_unauthorized
        then some (t (units "dashboard.keyRequiredToList") (some ((units "action", action) ∷ [])))
        else if e.is_forbidden
        then some (t (units "dashboard.notPermittedTo") (some ((units "action", action) ∷ [])))
        else if e.is_unavailable
        then some (unavailable_hint e)
        else none
    | failure message ↦ none
    | anything ↦ none
  ]
