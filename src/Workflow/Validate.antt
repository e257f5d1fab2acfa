-- ===== src/Workflow/Validate.antt =====
-- frontend/src/lib/workflow-validate.ts
pub mod Graph
pub mod Accepts
pub mod Messages
pub mod Names
pub mod Reports
mod Tests
use mathlib.Core.Option
use agent_os_test.Prelude.{
  suc, Bool, true, false, not, Option, none, some, List, [], ◌∷◌, ◌++◌, map, Text, text_has_eq,
  units, eqb, if◌then◌else◌, length, filter, is_empty, contains, set_add, set_of, map_of, join,
}
use agent_os_test.Types.Workflows.{WorkflowStep}
use agent_os_test.Workflow.Cycle.{Deps, Search, start, each, visit}

abbrev pub ids_of : List WorkflowStep → List Text
ids_of steps = map (λ s. s.id) steps

-- `errors.push(message)` under a test
abbrev pub push_if : Bool → Text → List Text
push_if test message = if test then message ∷ [] else []

abbrev pub no_steps : Text
no_steps = units "Add at least one step."

abbrev pub duplicate_ids : Text
duplicate_ids = units "Step ids must be unique."

abbrev pub has_cycle : Text
has_cycle = units "The workflow contains a dependency cycle."

abbrev pub step_prefix : Text
step_prefix = units "Step \""

abbrev pub unknown_message : Text → List Text → Text
unknown_message id missing =
    step_prefix ++ (id ++ (units "\" depends on unknown step(s): " ++ join (units ", ") missing))

abbrev pub self_message : Text → Text
self_message id = step_prefix ++ (id ++ units "\" cannot depend on itself.")

-- The dependencies of a step that name no step.
abbrev pub missing_of : List Text → WorkflowStep → List Text
missing_of id_set step = filter (λ dep. not (contains dep id_set)) step.depends_on

-- The body of the loop over the steps.
abbrev pub step_errors : List Text → WorkflowStep → List Text
step_errors id_set step =
    let missing = missing_of id_set step in
    push_if (not (is_empty missing)) (unknown_message step.id missing)
    ++ push_if (contains step.id step.depends_on) (self_message step.id)

abbrev pub each_step_errors : List Text → List WorkflowStep → List Text
each_step_errors id_set [] = []
each_step_errors id_set (s ∷ steps) = step_errors id_set s ++ each_step_errors id_set steps

-- `new Map(steps.map((s) => [s.id, s.depends_on]))`
pub deps_map : List WorkflowStep → Deps
unfolding map_of
deps_map steps = map_of [] (map (λ s. (s.id, s.depends_on)) steps)

-- The search over all ids; `none` means that the fuel ran out.
pub find_cycle : List WorkflowStep → Option Search
find_cycle steps =
    let deps = deps_map steps in each (visit deps (suc (length deps))) (ids_of steps) start

-- All that is pushed, behind a search that ended in `t`.
pub errors_of : List WorkflowStep → Search → List Text
unfolding set_of
errors_of steps t =
    let ids = ids_of steps in
    let id_set = set_of ids in
    push_if (is_empty steps) no_steps
    ++ (push_if (not (eqb (length ids) (length id_set))) duplicate_ids
        ++ (each_step_errors id_set steps ++ push_if t.cycle has_cycle))

-- `validateWorkflowGraph`
pub validate_workflow_graph : List WorkflowStep → Option (List Text)
validate_workflow_graph steps = Option.map (errors_of steps) (find_cycle steps)

-- The rest of a text behind a prefix.
pub strip_prefix : Text → Text → Option Text
strip_prefix [] s = some s
strip_prefix (d ∷ t) [] = none
strip_prefix (d ∷ t) (c ∷ s) = if eqb c d then strip_prefix t s else none

-- `([^"]*)"`: the units before the next double quote.
pub capture : Text → Option Text
capture [] = none
capture (c ∷ s) = if eqb c b'"' then some [] else Option.map (λ r. c ∷ r) (capture s)

-- `Step "([^"]+)"` at one position
pub match_at : Text → Option Text
match_at s = elim (strip_prefix step_prefix s) [
  | none ↦ none
  | some rest ↦ elim (capture rest) [ none ↦ none | some [] ↦ none | some (c ∷ r) ↦ some (c ∷ r) ]
]

-- `error.match(/Step "([^"]+)"/)`: the group of the first match
pub match_step : Text → Option Text
match_step [] = none
match_step (c ∷ s) = elim (match_at (c ∷ s)) [ none ↦ match_step s | some id ↦ some id ]

-- `invalidStepIds`
pub invalid_step_ids : List Text → List Text
unfolding set_add
invalid_step_ids [] = []
invalid_step_ids (error ∷ errors) =
    let rest = invalid_step_ids errors in
    elim (match_step error) [ none ↦ rest | some id ↦ set_add id rest ]
