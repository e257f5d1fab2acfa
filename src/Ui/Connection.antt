-- ===== src/Ui/Connection.antt =====
-- The state of the connection in the top bar:
-- frontend/src/components/layout/ConnectionStatus.tsx. The query of the health and whether a key is
-- configured are arguments.
pub mod Honest
mod Tests
use agent_os_test.Prelude.{
  Bool, ◌&&◌, ◌||◌, true, false, not, Option, none, some, is_some, List, [], ◌∷◌, ◌++◌, Text,
  text_has_eq, units, ◌==◌, is_empty, filter, join, if◌then◌else◌,
}
use agent_os_test.Types.System.{HealthResponse}
use agent_os_test.I18n.Interpolate.{Vars}

-- What the hook of a query returns.
pub record QueryResult {ℓ} (A : Type ℓ) : Type ℓ where
  pub data_value : Option A
  pub is_error : Bool
  pub is_loading : Bool

pub data HeartbeatState : Type 0 where
  online connecting offline : HeartbeatState

-- `data?.warnings?.length ?? 0`, compared with 0.
abbrev pub has_warnings : HealthResponse → Bool
has_warnings h = elim h.warnings [ none ↦ false | some ws ↦ not (is_empty ws) ]

-- `data?.status !== "ok" || warnings`
abbrev pub is_unwell : HealthResponse → Bool
is_unwell h = not (h.status == units "ok") || has_warnings h

unfoldable pub reachable : QueryResult HealthResponse → Bool
reachable q = is_some q.data_value && not q.is_error

unfoldable pub degraded : QueryResult HealthResponse → Bool
unfolding reachable
degraded q = reachable q && elim q.data_value [ none ↦ true | some h ↦ is_unwell h ]

-- `state`
unfoldable pub state_of : QueryResult HealthResponse → HeartbeatState
unfolding degraded
state_of q =
    if q.is_loading
    then connecting
    else if reachable q
    then (if degraded q then connecting else online)
    else offline

-- The key of `label`.
unfoldable pub label_of : QueryResult HealthResponse → Text
unfolding degraded
label_of q =
    if q.is_loading
    then units "topbar.connecting"
    else if not (reachable q)
    then units "topbar.apiOffline"
    else if degraded q
    then units "topbar.degraded"
    else units "topbar.apiOnline"

-- The colours, by their names.
pub data Tone : Type 0 where
  green amber red : Tone

abbrev pub tone_of : HeartbeatState → Tone
tone_of online = green
tone_of connecting = amber
tone_of offline = red

-- Whether the link for a missing key is shown.
unfoldable pub asks_for_key : Bool → QueryResult HealthResponse → Bool
unfolding reachable
asks_for_key configured q = reachable q && not configured
