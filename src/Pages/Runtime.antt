-- ===== src/Pages/Runtime.antt =====
-- The page of the runtime: frontend/src/pages/Runtime.tsx. The state has what was typed, which
-- execution is looked up, how the last request stands, the module state of the session's history,
-- the requests that were sent and the toasts that were pushed, the latest first. `JSON.parse` is a
-- parameter.
pub mod Named
pub mod Recorded
pub mod Typed
mod Tests
use agent_os_test.Prelude.{
  Bool, ◌&&◌, ◌||◌, true, false, not, Option, none, some, List, [], ◌∷◌, ◌++◌, Text, units, trim,
  is_empty, if◌then◌else◌,
}
use agent_os_test.Json.{Value, obj, end}
use agent_os_test.Types.Runtime.{RuntimeExecution}
use agent_os_test.Session.History.{HistoryEntry, runtime_execution, Codec, State, record_history}
use agent_os_test.Ui.Toast.{Toast, success, error}

-- The payload of `execute.mutate`. What the text parses to need not be an object.
pub record Request : Type 0 where
  pub provider : Text
  pub workflow : Text
  pub payload : Value
  pub idempotency_key : Option Text

-- `execute.isPending`, `execute.isError`
pub data Progress : Type 0 where
  settled pending failed : Progress

pub record Runtime : Type 0 where
  pub provider : Text
  pub workflow : Text
  pub payload_text : Text
  pub payload_error : Option Text
  pub idempotency_key : Text
  pub lookup_id : Text
  pub active_lookup : Option Text
  pub progress : Progress
  pub history : State
  pub sent : List Request
  pub toasts : List Toast

abbrev pub is_pending : Progress → Bool
is_pending settled = false
is_pending pending = true
is_pending failed = false

abbrev pub is_failed : Progress → Bool
is_failed settled = false
is_failed pending = false
is_failed failed = true

-- `idempotencyKey || null`
abbrev pub key_or_null : Text → Option Text
key_or_null s = if is_empty s then none else some s

-- `payloadText.trim() ? JSON.parse(payloadText) : {}`, which may throw.
abbrev pub read_payload : (Text → Option Value) → Text → Option Value
read_payload parse_json text = if is_empty (trim text) then some (obj end) else parse_json text

abbrev pub request_of : Runtime → Value → Request
request_of s payload = record {
  provider = s.provider;
  workflow = s.workflow;
  payload = payload;
  idempotency_key = key_or_null s.idempotency_key;
}

-- `run`, when the payload has been read.
abbrev pub run_with : Option Value → Runtime → Runtime
run_with none s = record s { payload_error = some (units "Payload must be valid JSON") }
run_with (some payload) s = record s {
  payload_error = none;
  progress = pending;
  sent = request_of s payload ∷ s.sent;
}

-- What is recorded of an execution.
abbrev pub entry_of : RuntimeExecution → HistoryEntry
entry_of execution = record {
  id = execution.id;
  label = execution.provider ++ (units " · " ++ execution.workflow);
  created_at = execution.created_at;
}

pub data Event : Type 0 where
  change_provider change_workflow change_payload change_key change_lookup view : Text → Event
  look_up press retry : Event
  answer : RuntimeExecution → Event
  failure : Text → Event

module _ (json : Codec) (parse_json : Text → Option Value) where
  -- `run`
  unfoldable pub run : Runtime → Runtime
  run s = run_with (read_payload parse_json s.payload_text) s

  -- `onSuccess`
  unfoldable pub triggered : RuntimeExecution → Runtime → Runtime
  triggered execution s = record s {
    progress = settled;
    history = record_history json runtime_execution (entry_of execution) s.history;
    active_lookup = some execution.id;
    toasts =
        record {
          title = units "Execution triggered";
          description = some execution.id;
          tone = success;
        }
        ∷ s.toasts;
  }

  -- `onError`
  unfoldable pub rejected : Text → Runtime → Runtime
  rejected message s = record s {
    progress = failed;
    toasts =
        record { title = units "Execution failed"; description = some message; tone = error }
        ∷ s.toasts;
  }

  -- The button is disabled while a request is under way and without a workflow. The view of the
  -- error has a button that tries again. Only a request that is under way is answered.
  unfoldable pub handle : Event → Runtime → Runtime
  handle (change_provider text) s = record s { provider = text }
  handle (change_workflow text) s = record s { workflow = text }
  handle (change_payload text) s = record s { payload_text = text }
  handle (change_key text) s = record s { idempotency_key = text }
  handle (change_lookup text) s = record s { lookup_id = text }
  handle (view id) s = record s { active_lookup = some id }
  handle look_up s = record s { active_lookup = some s.lookup_id }
  handle press s = if is_pending s.progress || is_empty s.workflow then s else run s
  handle retry s = if is_failed s.progress then run s else s
  handle (answer execution) s = if is_pending s.progress then triggered execution s else s
  handle (failure message) s = if is_pending s.progress then rejected message s else s

-- The page when it is opened.
abbrev pub opened : State → Runtime
opened history = record {
  provider = units "n8n";
  workflow = [];
  payload_text = units "{}";
  payload_error = none;
  idempotency_key = [];
  lookup_id = [];
  active_lookup = none;
  progress = settled;
  history = history;
  sent = [];
  toasts = [];
}
