-- ===== src/Workflow/StepForm.antt =====
-- The form that edits one step: frontend/src/components/workflows/StepEditorDialog.tsx. Reading
-- and printing JSON are parameters; the result of `JSON.parse` has the type the code gives it.
pub mod Accepts
use agent_os_test.Prelude.{
  ℕ, zero, suc, ◌+◌, ◌/◌, ◌%◌, Bool, ◌&&◌, not, true, false, Option, none, some, List, [], ◌∷◌,
  ◌++◌, Text, text_has_eq, units, ltb, is_empty, trim, contains, length, decimal, if◌then◌else◌,
}
use agent_os_test.Json.{Number, Value}
use agent_os_test.Types.Workflows.{StepType, noop, WorkflowStep}

pub record StepForm : Type 0 where
  pub id : Text
  pub type : StepType
  pub input_text : Text
  pub max_retries : ℕ
  pub timeout_seconds : Number
  pub error : Option Text

-- The result of saving: the form with a message, or a step.
pub data Saved : Type 0 where
  rejected : StepForm → Saved
  saved : WorkflowStep → Saved

abbrev with_error : StepForm → Text → StepForm
with_error form message = record form { error = some message }

abbrev or_none : Option (Option Text) → Option (Option Text)
or_none none = some none
or_none (some k) = some k

-- The form as the dialog opens, on a step or for a new one.
pub open_form : (List (Text × Value) → Text) → Option WorkflowStep → List Text → StepForm
open_form stringify (some step) existing_ids = record {
  id = step.id;
  type = step.type;
  input_text = stringify step.input;
  max_retries = step.max_retries;
  timeout_seconds = step.timeout_seconds;
  error = none;
}
open_form stringify none existing_ids = record {
  id = units "step-" ++ decimal (length existing_ids + 1);
  type = noop;
  input_text = stringify [];
  max_retries = 0;
  timeout_seconds = units "30";
  error = none;
}

abbrev pub is_none : Option WorkflowStep → Bool
is_none none = true
is_none (some s) = false

-- The text of the input, blank for no field.
abbrev pub read_input : (Text → Option (List (Text × Value))) → Text → Option (List (Text × Value))
read_input parse_json text = if is_empty (trim text) then some [] else parse_json text

abbrev pub depends_on_of : Option WorkflowStep → List Text
depends_on_of none = []
depends_on_of (some s) = s.depends_on

abbrev pub condition_key_of : Option WorkflowStep → Option (Option Text)
condition_key_of none = some none
condition_key_of (some s) = or_none s.condition_key

abbrev pub condition_equals_of : Option WorkflowStep → Option Value
condition_equals_of none = none
condition_equals_of (some s) = s.condition_equals

pub save :
    (Text → Option (List (Text × Value))) → Option WorkflowStep → List Text → StepForm → Saved
save parse_json initial existing_ids form =
    if is_empty (trim form.id)
    then rejected (with_error form (units "Step id is required"))
    else if is_none initial && contains (trim form.id) existing_ids
    then rejected (with_error form (units "Step id must be unique"))
    else elim (read_input parse_json form.input_text) [
      | none ↦ rejected (with_error form (units "Input must be valid JSON"))
      | some input ↦ saved (record {
        id = trim form.id;
        type = form.type;
        depends_on = depends_on_of initial;
        input = input;
        condition_key = condition_key_of initial;
        condition_equals = condition_equals_of initial;
        max_retries = form.max_retries;
        timeout_seconds = form.timeout_seconds;
      })
    ]
