-- ===== src/Workflow/Validate/Reports.antt =====
-- The error of a dependency cycle is reported for cycles, whatever else is wrong.
use agent_os_test.Prelude.{
  ◌≡◌, refl, ◌↔◌, ◌∙◌, Bool, true, false, not, some, List, [], ◌∷◌, Text, text_has_eq, text_eq,
  contains, contains-append, set_of, Distinct, length, is_empty, eqb,
}
use agent_os_test.Types.Workflows.{WorkflowStep}
use agent_os_test.Workflow.Cycle.{Search}
use agent_os_test.Workflow.Validate.{
  ids_of, no_steps, duplicate_ids, has_cycle, push_if, missing_of, unknown_message, self_message,
  step_errors, each_step_errors, errors_of, validate_workflow_graph,
}
use agent_os_test.Workflow.Validate.Graph.{IsCyclic, HasCycle_iff}
use agent_os_test.Workflow.Validate.Accepts.{find_cycle_total}

push-contains :
    (b : Bool) (message : Text)
    → text_eq has_cycle message ≡ false
    → contains has_cycle (push_if b message) ≡ false
push-contains true message h = rw h
push-contains false message h = refl

step_errors-contains :
    (id_set : List Text) (s : WorkflowStep) → contains has_cycle (step_errors id_set s) ≡ false
unfolding text_eq
step_errors-contains id_set s =
    contains-append has_cycle
      (push_if (not (is_empty (missing_of id_set s))) (unknown_message s.id (missing_of id_set s)))
      (push_if (contains s.id s.depends_on) (self_message s.id))
    ∙ rw
        (push-contains (not (is_empty (missing_of id_set s)))
          (unknown_message s.id (missing_of id_set s)) refl)
        (push-contains (contains s.id s.depends_on) (self_message s.id) refl)

each-contains :
    (id_set : List Text) (steps : List WorkflowStep)
    → contains has_cycle (each_step_errors id_set steps) ≡ false
each-contains id_set [] = refl
each-contains id_set (s ∷ steps) =
    contains-append has_cycle (step_errors id_set s) (each_step_errors id_set steps)
    ∙ rw (step_errors-contains id_set s) (each-contains id_set steps)

cycle-contains : (b : Bool) → contains has_cycle (push_if b has_cycle) ≡ b
unfolding text_eq
cycle-contains true = refl
cycle-contains false = refl

errors_of-contains :
    (steps : List WorkflowStep) (t : Search) → contains has_cycle (errors_of steps t) ≡ t.cycle
unfolding errors_of text_eq
errors_of-contains steps t =
    let ids = ids_of steps in
    let repeated = not (eqb (length ids) (length (set_of ids))) in
    simp (
      contains-append has_cycle,
      push-contains (is_empty steps) no_steps refl,
      push-contains repeated duplicate_ids refl,
      each-contains (set_of ids) steps,
      cycle-contains t.cycle,
    )

-- If the ids are distinct, the checks end with a list that holds the error of a dependency cycle
-- exactly if some step depends on itself over one step or more, whatever else is wrong.
pub has_cycle_iff :
    (steps : List WorkflowStep)
    → Distinct (ids_of steps)
    → (errors : List Text) × (validate_workflow_graph steps ≡ some errors)
      × ((contains has_cycle errors ≡ true) ↔ IsCyclic steps)
unfolding validate_workflow_graph
has_cycle_iff steps d =
    let (t, found, flag) = find_cycle_total steps in
    let (there, back) = HasCycle_iff steps d in
    let same = errors_of-contains steps t in
    (
      errors_of steps t,
      rw found,
      (λ h. there (flag.0 (rw same at h)), λ c. rw same (flag.1 (back c))),
    )
