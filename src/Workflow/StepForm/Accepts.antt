-- ===== src/Workflow/StepForm/Accepts.antt =====
-- Which forms are saved.
use agent_os_test.Prelude.{
  ◌≡◌, ◌≢◌, false, Option, none, List, [], Text, text_has_eq, trim, contains, arith,
}
use agent_os_test.Json.{Value}
use agent_os_test.Types.Workflows.{WorkflowStep}
use agent_os_test.Workflow.StepForm.{StepForm, saved, save}

-- If a form is saved, the step has an id, which is the trimmed text of the form, and for a new
-- step it is no id in use.
pub save-IsNew :
    (parse_json : Text → Option (List (Text × Value))) (initial : Option WorkflowStep)
    (existing_ids : List Text) (form : StepForm) (step : WorkflowStep)
    → save parse_json initial existing_ids form ≡ saved step
    → (step.id ≢ [])
      × (step.id ≡ trim form.id)
      × (initial ≡ none → contains step.id existing_ids ≡ false)
unfolding save
save-IsNew parse_json initial existing_ids form step h = ground arith
