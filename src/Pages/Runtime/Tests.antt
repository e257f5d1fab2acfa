-- ===== src/Pages/Runtime/Tests.antt =====
-- The theorems on the page at a session in which one execution is triggered.
use mathlib.Core.List.{Memᴰ}
use agent_os_test.Prelude.{◌≡◌, refl, Option, none, List, [], ◌∷◌, Text, units, take}
use agent_os_test.Json.{Value, null}
use agent_os_test.Types.Runtime.{ExecutionStatus, RuntimeExecution}
use agent_os_test.Session.History.{runtime_execution, entries}
use agent_os_test.Session.History.Log.{latest, of_kind}
use agent_os_test.Session.History.Sample.{codec, blank}
use agent_os_test.Pages.Runtime.{Request, Event, change_workflow, change_payload, press, answer}
use agent_os_test.Pages.Runtime.Recorded.{session, executions, session-entries}
use agent_os_test.Pages.Runtime.Typed.{AskedIn}
use agent_os_test.Pages.Runtime.Named.{AllNamed, WithoutRetry, session-AllNamed}

abbrev no_json : Text → Option Value
no_json text = none

abbrev execution : RuntimeExecution
execution = record {
  id = units "e1";
  provider = units "n8n";
  workflow = units "notify";
  status = ExecutionStatus.pending;
  attempts = 1;
  correlation_id = none;
  idempotency_key = none;
  data_value = null;
  error = none;
  created_at = units "now";
  updated_at = units "now";
}

-- The latest first.
abbrev happened : List Event
happened =
    answer execution
    ∷ (press ∷ (change_workflow (units "notify") ∷ (change_payload (units "") ∷ [])))

session-entries_example :
    (entries (session codec no_json happened blank).history.store runtime_execution
      ≡ take 25 (latest (of_kind runtime_execution (executions codec no_json happened blank))))
    × ((r : Request)
        → Memᴰ r (session codec no_json happened blank).sent
        → AskedIn no_json happened r)
session-entries_example = session-entries codec no_json happened blank refl

session-AllNamed_example :
    ((es : List Event) → WithoutRetry es → AllNamed (session codec no_json es blank))
    × ((es : List Event) × (r : Request) × Memᴰ r (session codec no_json es blank).sent
        × (r.workflow ≡ []))
session-AllNamed_example = session-AllNamed codec no_json blank
