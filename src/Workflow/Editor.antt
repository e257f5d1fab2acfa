-- ===== src/Workflow/Editor.antt =====
-- The workflow editor: frontend/src/pages/Workflows.tsx. The library that draws the graph is a
-- parameter where the page calls it (`addEdge`); what only styles an edge is left out. Reading
-- JSON is a parameter, and the fresh id of a definition an argument.
pub mod Sound
pub mod Keeps
pub mod Reaches
pub mod Removes
pub mod Runs
mod Tests
use agent_os_test.Prelude.{
  ℕ, ◌+◌, ◌*◌, Bool, ◌&&◌, ◌||◌, true, false, not, Option, none, some, List, [], ◌∷◌, ◌++◌, map,
  Text, text_has_eq, units, ◌==◌, filter, length, is_empty, trim, lookup, if◌then◌else◌,
}
use agent_os_test.Json.{Number, Value, obj, end}
use agent_os_test.Types.Workflows.{
  StepType, noop, StepStatus, WorkflowStep, WorkflowDefinition, StepRun, WorkflowRun,
}
use agent_os_test.Session.History.{Codec, State, HistoryEntry, workflow_run, record_history}
use agent_os_test.Ui.Toast.{Toast, success, error}
use agent_os_test.Workflow.Validate.{validate_workflow_graph}
use agent_os_test.Workflow.StepForm.{StepForm, Saved, rejected, saved, save}

-- `StepNodeData`, less the callbacks and the mark of an invalid step, which are put in to render.
pub record StepNodeData : Type 0 where
  pub step_id : Text
  pub type : StepType
  pub max_retries : ℕ
  pub timeout_seconds : Number
  pub run_status : Option StepStatus

pub record Node : Type 0 where
  pub id : Text
  pub x : ℕ
  pub y : ℕ
  pub data_value : StepNodeData
  pub selected : Bool

pub record Edge : Type 0 where
  pub source : Text
  pub target : Text
  pub selected : Bool

pub record Connection : Type 0 where
  pub source : Text
  pub target : Text

pub step_to_node : WorkflowStep → ℕ → ℕ → Node
step_to_node step x y = record {
  id = step.id;
  x = x;
  y = y;
  data_value = record {
    step_id = step.id;
    type = step.type;
    max_retries = step.max_retries;
    timeout_seconds = step.timeout_seconds;
    run_status = none;
  };
  selected = false;
}

pub record Editor : Type 0 where
  pub name : Text
  pub context_text : Text
  pub nodes : List Node
  pub edges : List Edge
  pub dialog_open : Bool
  pub editing_step : Option WorkflowStep
  pub validation_errors : List Text

abbrev pub first_step : WorkflowStep
first_step = record {
  id = units "start";
  type = noop;
  depends_on = [];
  input = [];
  condition_key = none;
  condition_equals = none;
  max_retries = 0;
  timeout_seconds = units "30";
}

pub initial_editor : Editor
initial_editor = record {
  name = units "New workflow";
  context_text = units "{}";
  nodes = step_to_node first_step 250 40 ∷ [];
  edges = [];
  dialog_open = false;
  editing_step = none;
  validation_errors = [];
}

abbrev pub edge_source : Edge → Text
edge_source e = e.source

abbrev pub node_id : Node → Text
node_id n = n.id

-- The sources of the edges into a node.
abbrev pub depends_on : List Edge → Text → List Text
depends_on edges id = map edge_source (filter (λ e. e.target == id) edges)

abbrev pub step_of : List Edge → Node → WorkflowStep
step_of edges n = record {
  id = n.id;
  type = n.data_value.type;
  depends_on = depends_on edges n.id;
  input = [];
  condition_key = some none;
  condition_equals = none;
  max_retries = n.data_value.max_retries;
  timeout_seconds = n.data_value.timeout_seconds;
}

pub steps_from_graph : Editor → List WorkflowStep
steps_from_graph ed = map (step_of ed.edges) ed.nodes

pub on_connect : (Connection → List Edge → List Edge) → Connection → Editor → Editor
on_connect add_edge c ed =
    if c.source == c.target then ed else record ed { edges = add_edge c ed.edges }

-- `find((s) => s.id === nodeId)`
abbrev pub find_step : Text → List WorkflowStep → Option WorkflowStep
find_step id [] = none
find_step id (s ∷ steps) = if s.id == id then some s else find_step id steps

pub edit_step : Text → Editor → Editor
edit_step id ed = elim (find_step id (steps_from_graph ed)) [
  | none ↦ ed
  | some s ↦ record ed { editing_step = some s; dialog_open = true }
]

abbrev pub is_away : Text → Edge → Bool
is_away id e = not (e.source == id) && not (e.target == id)

pub delete_step : Text → Editor → Editor
delete_step id ed = record ed {
  nodes = filter (λ n. not (n.id == id)) ed.nodes;
  edges = filter (is_away id) ed.edges;
}

pub add_step : Editor → Editor
add_step ed = record ed { editing_step = none; dialog_open = true }

-- The data of the node of the step, replaced.
abbrev pub update_node : WorkflowStep → Node → Node
update_node step n =
    if n.id == step.id
    then record n {
      data_value = record n.data_value {
        type = step.type;
        max_retries = step.max_retries;
        timeout_seconds = step.timeout_seconds;
      };
    }
    else n

pub on_save_step : WorkflowStep → Editor → Editor
on_save_step step ed = elim ed.editing_step [
  | some s ↦ record ed { nodes = map (update_node step) ed.nodes }
  | none ↦ record ed {
    nodes =
        ed.nodes
        ++ (step_to_node step (100 + length ed.nodes * 40) (140 + length ed.nodes * 90) ∷ []);
  }
]

pub close_dialog : Editor → Editor
close_dialog ed = record ed { dialog_open = false }

-- The save button of the dialog: the form stays, or the step is saved and the dialog closed.
pub submit : (Text → Option (List (Text × Value))) → StepForm → Editor → Editor × Option StepForm
submit parse_json form ed = elim (save parse_json ed.editing_step (map node_id ed.nodes) form) [
  | rejected again ↦ (ed, some again)
  | saved step ↦ (close_dialog (on_save_step step ed), none)
]

pub remove_selected : Editor → Editor
remove_selected ed = record ed {
  nodes = filter (λ n. not n.selected) ed.nodes;
  edges = filter (λ e. not e.selected) ed.edges;
}

-- What a run asks the backend for.
pub record Submission : Type 0 where
  pub definition : WorkflowDefinition
  pub context : Value

-- The text of the context, blank for no field.
abbrev pub read_context : (Text → Option Value) → Text → Option Value
read_context parse_json text = if is_empty (trim text) then some (obj end) else parse_json text

-- After the check of the graph, with its errors.
abbrev pub run_checked :
    (Text → Option Value) → Text → Editor → List Text → Editor × Option Submission
run_checked parse_json definition_id ed (e ∷ errors) =
    (record ed { validation_errors = e ∷ errors }, none)
run_checked parse_json definition_id ed [] = elim (read_context parse_json ed.context_text) [
  | none ↦ (record ed { validation_errors = units "Context must be valid JSON." ∷ [] }, none)
  | some context ↦ (
    record ed { validation_errors = [] },
    some (record {
      definition = record { id = definition_id; name = ed.name; steps = steps_from_graph ed };
      context = context;
    }),
  )
]

-- The run button. There is no result if the check of the graph runs out of fuel.
pub run : (Text → Option Value) → Text → Editor → Option (Editor × Option Submission)
run parse_json definition_id ed = elim (validate_workflow_graph (steps_from_graph ed)) [
  | none ↦ none
  | some errors ↦ some (run_checked parse_json definition_id ed errors)
]

abbrev pub step_status : Option StepRun → Option StepStatus
step_status none = none
step_status (some r) = some r.status

-- The status of the node's step in a run.
abbrev pub with_status : WorkflowRun → Node → Node
with_status started n = record n {
  data_value = record n.data_value { run_status = step_status (lookup n.id started.steps) };
}

-- `onSuccess`: the entry of the history, the message and the nodes.
pub run_started : Codec → Text → WorkflowRun → Editor → State → Editor × State × Toast
run_started json created_at started ed s = (
  record ed { nodes = map (with_status started) ed.nodes },
  record_history json workflow_run
      (record { id = started.id; label = ed.name; created_at = created_at }) s,
  record {
    tone = success;
    title = units "Workflow started";
    description = some (units "Run " ++ started.id);
  },
)

-- `onError`
pub run_failed : Text → Toast
run_failed message = record { tone = error; title = units "Run failed"; description = some message }
