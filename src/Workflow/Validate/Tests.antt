-- ===== src/Workflow/Validate/Tests.antt =====
-- Runs of the workflow checks on small graphs, and the theorems at inputs.
use agent_os_test.Prelude.{
  ◌≡◌, ◌↔◌, true, contains, text_has_eq, arith, refl, some, none, List, [], ◌∷◌, Text, units,
  text_eq, join,
}
use agent_os_test.Types.Workflows.{WorkflowStep, noop}
use agent_os_test.Workflow.Cycle.{search_runs}
use agent_os_test.Workflow.Validate.Accepts.{IsWellFormed, validate_iff}
use agent_os_test.Workflow.Validate.Graph.{IsCyclic}
use agent_os_test.Workflow.Validate.Reports.{has_cycle_iff}
use agent_os_test.Workflow.Validate.Messages.{IsPlain}
use agent_os_test.Workflow.Validate.Names.{NamesBroken, invalid_step_ids_iff}
use agent_os_test.Workflow.Validate.{
  has_cycle, ids_of, validate_workflow_graph, errors_of, invalid_step_ids, deps_map, find_cycle,
  no_steps, match_step, match_at, strip_prefix, capture,
}

abbrev step : Text → List Text → WorkflowStep
step id deps = record {
  id = id;
  type = noop;
  depends_on = deps;
  input = [];
  condition_key = none;
  condition_equals = none;
  max_retries = 0;
  timeout_seconds = units "30";
}

abbrev a : Text
a = units "a"

abbrev b : Text
b = units "b"

abbrev c : Text
c = units "c"

checks : Unit {0}
unfolding text_eq join search_runs validate_workflow_graph errors_of find_cycle deps_map
    invalid_step_ids match_step match_at strip_prefix capture
checks = tt

empty : validate_workflow_graph [] ≡ some (no_steps ∷ [])
unfolding checks
empty = refl

chain : validate_workflow_graph (step c (b ∷ a ∷ []) ∷ step b (a ∷ []) ∷ step a [] ∷ []) ≡ some []
unfolding checks
chain = refl

cycle :
    validate_workflow_graph (step a (b ∷ []) ∷ step b (a ∷ []) ∷ [])
    ≡ some (units "The workflow contains a dependency cycle." ∷ [])
unfolding checks
cycle = refl

unknown :
    validate_workflow_graph (step a (b ∷ c ∷ a ∷ []) ∷ [])
    ≡ some (
        units "Step \"a\" depends on unknown step(s): b, c"
        ∷ units "Step \"a\" cannot depend on itself."
        ∷ units "The workflow contains a dependency cycle."
        ∷ [])
unfolding checks
unknown = refl

quoted : invalid_step_ids (units "Step \"a\" cannot depend on itself." ∷ []) ≡ a ∷ []
unfolding checks
quoted = refl

-- Two steps that wait for each other.
abbrev loop : List WorkflowStep
loop = step a (b ∷ []) ∷ step b (a ∷ []) ∷ []

abbrev broken : List WorkflowStep
broken = step a (c ∷ []) ∷ step b (a ∷ []) ∷ []

a-IsPlain : IsPlain a
a-IsPlain = ((λ e. cc), (omega arith, tt))

b-IsPlain : IsPlain b
b-IsPlain = ((λ e. cc), (omega arith, tt))

validate_iff_example :
    (errors : List Text) × (validate_workflow_graph loop ≡ some errors)
    × ((errors ≡ []) ↔ IsWellFormed loop)
validate_iff_example = validate_iff loop

has_cycle_iff_example :
    (errors : List Text) × (validate_workflow_graph loop ≡ some errors)
    × ((contains has_cycle errors ≡ true) ↔ IsCyclic loop)
unfolding checks
has_cycle_iff_example = has_cycle_iff loop (refl, (refl, tt))

invalid_step_ids_iff_example :
    (errors : List Text) × (validate_workflow_graph broken ≡ some errors)
    × ((contains a (invalid_step_ids errors) ≡ true) ↔ NamesBroken (ids_of broken) a broken)
invalid_step_ids_iff_example = invalid_step_ids_iff broken (a-IsPlain, (b-IsPlain, tt)) a
