-- ===== src/Pages/Approvals/Tests.antt =====
-- The theorem on the page at a session in which one request is granted.
use mathlib.Core.List.{Memᴰ}
use agent_os_test.Prelude.{◌≡◌, ◌≤◌, refl, none, List, [], ◌∷◌, units, length, take}
use agent_os_test.Types.Tools.{ApprovalGrant}
use agent_os_test.Session.History.{approval, entries}
use agent_os_test.Session.History.Log.{latest, of_kind}
use agent_os_test.Session.History.Sample.{codec, blank}
use agent_os_test.Pages.Approvals.{Request, Event, choose_tool, change_approved_by, press, answer}
use agent_os_test.Pages.Approvals.Recorded.{run, grants, IsComplete, run-entries}

abbrev grant : ApprovalGrant
grant = record {
  approval_id = units "a1";
  tool = units "deploy";
  approved_by = units "me";
  reason = none;
}

-- The latest first.
abbrev session_events : List Event
session_events =
    answer grant (units "now")
    ∷ (press ∷ (change_approved_by (units "me") ∷ (choose_tool (units "deploy") ∷ [])))

run-entries_example :
    (entries (run codec session_events blank).history.store approval
      ≡ take 25 (latest (of_kind approval (grants codec session_events blank))))
    × ((r : Request) → Memᴰ r (run codec session_events blank).sent → IsComplete r)
    × (length (grants codec session_events blank) ≤ length (run codec session_events blank).sent)
run-entries_example = run-entries codec session_events blank refl
