-- ===== src/Pages/Approvals.antt =====
-- The page that issues approvals: frontend/src/pages/Approvals.tsx. The state has what was typed,
-- whether a request is under way, the module state of the session's history, the requests that were
-- sent and the toasts that were pushed, the latest first. The time of an answer is an argument.
pub mod Recorded
mod Tests
use agent_os_test.Prelude.{
  Bool, ◌||◌, true, false, not, Option, none, some, List, [], ◌∷◌, ◌++◌, Text, units, is_empty,
  filter, if◌then◌else◌,
}
use agent_os_test.Types.Tools.{ToolRisk, ToolInfo, ApprovalGrant}
use agent_os_test.Session.History.{HistoryEntry, approval, Codec, State, record_history}
use agent_os_test.Ui.Toast.{Toast, success, error}

-- The payload of `issueApproval.mutate`.
pub record Request : Type 0 where
  pub tool : Text
  pub approved_by : Text
  pub reason : Option Text

pub record Approvals : Type 0 where
  pub tool : Text
  pub approved_by : Text
  pub reason : Text
  pub is_pending : Bool
  pub history : State
  pub sent : List Request
  pub toasts : List Toast

-- `t.risk !== "read"`
abbrev pub is_risky : ToolInfo → Bool
is_risky info = elim info.risk [
  | ToolRisk.read ↦ false
  | ToolRisk.write ↦ true
  | ToolRisk.high_risk ↦ true
]

-- `writeOrHighRiskTools`
abbrev pub write_or_high_risk_tools : Option (List ToolInfo) → List ToolInfo
write_or_high_risk_tools none = []
write_or_high_risk_tools (some tools) = filter is_risky tools

-- `reason || undefined`
abbrev pub text_or_undefined : Text → Option Text
text_or_undefined s = if is_empty s then none else some s

abbrev pub request_of : Approvals → Request
request_of s = record {
  tool = s.tool;
  approved_by = s.approved_by;
  reason = text_or_undefined s.reason;
}

abbrev pub required_toast : Toast
required_toast = record {
  title = units "Tool and approver are required";
  description = none;
  tone = error;
}

-- `issue`
unfoldable pub issue : Approvals → Approvals
issue s =
    if is_empty s.tool || is_empty s.approved_by
    then record s { toasts = required_toast ∷ s.toasts }
    else record s { is_pending = true; sent = request_of s ∷ s.sent }

-- What is recorded of a grant.
abbrev pub entry_of : ApprovalGrant → Text → HistoryEntry
entry_of grant now = record {
  id = grant.approval_id;
  label = grant.tool ++ (units " · approved by " ++ grant.approved_by);
  created_at = now;
}

pub data Event : Type 0 where
  choose_tool change_approved_by change_reason : Text → Event
  press : Event
  answer : ApprovalGrant → Text → Event
  failure : Text → Event

module _ (json : Codec) where
  -- `onSuccess`
  unfoldable pub issued : ApprovalGrant → Text → Approvals → Approvals
  issued grant now s = record s {
    reason = [];
    is_pending = false;
    history = record_history json approval (entry_of grant now) s.history;
    toasts =
        record {
          title = units "Approval issued";
          description = some grant.approval_id;
          tone = success;
        }
        ∷ s.toasts;
  }

  -- `onError`
  unfoldable pub refused : Text → Approvals → Approvals
  refused message s = record s {
    is_pending = false;
    toasts =
        record {
          title = units "Could not issue approval";
          description = some message;
          tone = error;
        }
        ∷ s.toasts;
  }

  -- The button is disabled while a request is under way, and only such a one is answered.
  unfoldable pub handle : Event → Approvals → Approvals
  handle (choose_tool text) s = record s { tool = text }
  handle (change_approved_by text) s = record s { approved_by = text }
  handle (change_reason text) s = record s { reason = text }
  handle press s = if s.is_pending then s else issue s
  handle (answer grant now) s = if s.is_pending then issued grant now s else s
  handle (failure message) s = if s.is_pending then refused message s else s

-- The page when it is opened.
abbrev pub opened : State → Approvals
opened history = record {
  tool = [];
  approved_by = [];
  reason = [];
  is_pending = false;
  history = history;
  sent = [];
  toasts = [];
}
