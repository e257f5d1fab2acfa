-- ===== src/Workflow/Validate/Accepts.antt =====
-- `validateWorkflowGraph` ends, and reports no error exactly for the well-formed workflows.
use mathlib.Core.List.{Memᴰ}
use agent_os_test.Prelude.{
  ◌≡◌, ◌≢◌, refl, ◌↔◌, inl, inr, Bool, true, false, not, some, List, [], ◌∷◌, ◌++◌, Text,
  text_has_eq, contains, contains-set_of, set_of, Distinct, length, length-set_of_iff, filter,
  is_empty, All, arith, Bool-cases,
}
use agent_os_test.Types.Workflows.{WorkflowStep}
use agent_os_test.Workflow.Cycle.{Search}
use agent_os_test.Workflow.Cycle.Stack.{HasCycle}
use agent_os_test.Workflow.Cycle.Correct.{search_correct}
use agent_os_test.Workflow.Validate.{
  ids_of, push_if, each_step_errors, deps_map, find_cycle, errors_of, validate_workflow_graph,
}
use agent_os_test.Workflow.Validate.Graph.{
  one, IsCyclic, HasCycle_iff, HasCycle-IsCyclic, key-contains,
}

-- Every dependency of the step is the id of a step.
abbrev pub KnowsAll : List Text → WorkflowStep → Type 0
KnowsAll ids s = All (λ d. contains d ids ≡ true) s.depends_on

-- What the checks are for.
pub record IsWellFormed (steps : List WorkflowStep) : Type 0 where
  pub nonempty : steps ≢ []
  pub distinct : Distinct (ids_of steps)
  pub known : All (KnowsAll (ids_of steps)) steps
  pub acyclic : ¬ IsCyclic steps

-- The search ends with some state, whose flag tells whether the map has a cycle.
pub find_cycle_total :
    (steps : List WorkflowStep)
    → (t : Search) × (find_cycle steps ≡ some t) × ((t.cycle ≡ true) ↔ HasCycle (deps_map steps))
unfolding find_cycle
find_cycle_total steps = search_correct (deps_map steps) (ids_of steps) (key-contains steps)

missing_nil :
    (ids ds : List Text)
    → (filter (λ d. not (contains d (set_of ids))) ds ≡ []) ↔ All (λ d. contains d ids ≡ true) ds
missing_nil ids [] = (λ _. tt, λ _. refl)
missing_nil ids (d ∷ ds) = ground (arith, missing_nil ids ds, contains-set_of d ids)

each_nil_known :
    (ids : List Text) (steps : List WorkflowStep)
    → each_step_errors (set_of ids) steps ≡ []
    → All (KnowsAll ids) steps
each_nil_known ids [] h = tt
each_nil_known ids (s ∷ steps) h =
    ground (arith, missing_nil ids s.depends_on, each_nil_known ids steps)

known_each_nil :
    (ids : List Text) (steps : List WorkflowStep)
    → All (KnowsAll ids) steps
    → ((s : WorkflowStep) → Memᴰ s steps → contains s.id s.depends_on ≡ false)
    → each_step_errors (set_of ids) steps ≡ []
known_each_nil ids [] h self = refl
known_each_nil ids (s ∷ steps) (h, k) self = ground (
  arith,
  missing_nil ids s.depends_on,
  self s (Memᴰ.head refl),
  known_each_nil ids steps k (λ t mem. self t (Memᴰ.tail mem)),
)

no_self :
    (steps : List WorkflowStep)
    → ¬ IsCyclic steps
    → (s : WorkflowStep) → Memᴰ s steps
    → contains s.id s.depends_on ≡ false
no_self steps acyclic s mem = elim (Bool-cases (contains s.id s.depends_on)) [
  | inl self ↦ absurd (acyclic (s.id, one (s, mem, refl, self)))
  | inr other ↦ other
]

append_nil {ℓ} : {A : Type ℓ} (xs ys : List A) → (xs ++ ys ≡ []) ↔ ((xs ≡ []) × (ys ≡ []))
append_nil [] ys = (λ h. (refl, h), λ (_, h). h)
append_nil (x ∷ xs) ys = (λ h. cc, λ (h, _). cc)

push_nil : (b : Bool) (message : Text) → (push_if b message ≡ []) ↔ (b ≡ false)
push_nil true message = (λ h. cc, λ h. cc)
push_nil false message = (λ _. refl, λ _. refl)

errors_of_nil :
    (steps : List WorkflowStep) (t : Search)
    → (errors_of steps t ≡ []) ↔ (
        (is_empty steps ≡ false)
        × (length (ids_of steps) ≡ length (set_of (ids_of steps)))
        × (each_step_errors (set_of (ids_of steps)) steps ≡ [])
        × (t.cycle ≡ false))
unfolding errors_of
errors_of_nil steps t = grind (arith, append_nil {0}, push_nil)

clear_flag : (b : Bool) {C : Type 0} → (b ≡ true) ↔ C → (b ≡ false) ↔ (¬ C)
clear_flag true flag = (λ h. cc, λ n. absurd (n (flag.0 refl)))
clear_flag false flag = (λ _ c. let bad : false ≡ true = flag.1 c in cc, λ _. refl)

is_empty_iff {ℓ} : {A : Type ℓ} (xs : List A) → (is_empty xs ≡ false) ↔ (xs ≢ [])
is_empty_iff [] = (λ h. cc, λ n. absurd (n refl))
is_empty_iff (x ∷ xs) = (λ _ e. cc, λ _. refl)

errors_of_iff :
    (steps : List WorkflowStep) (t : Search)
    → (t.cycle ≡ true) ↔ HasCycle (deps_map steps)
    → (errors_of steps t ≡ []) ↔ IsWellFormed steps
errors_of_iff steps t flag = (
  λ h.
      let (some_steps, lengths, steps_ok, clear) = (errors_of_nil steps t).0 h in
      let distinct = (length-set_of_iff (ids_of steps)).0 lengths in
      record {
        nonempty = (is_empty_iff steps).0 some_steps;
        distinct = distinct;
        known = each_nil_known (ids_of steps) steps steps_ok;
        acyclic = λ c. (clear_flag t.cycle flag).0 clear ((HasCycle_iff steps distinct).1 c);
      },
  λ w. (errors_of_nil steps t).1 (
    (is_empty_iff steps).1 w.nonempty,
    (length-set_of_iff (ids_of steps)).1 w.distinct,
    known_each_nil (ids_of steps) steps w.known (no_self steps w.acyclic),
    (clear_flag t.cycle flag).1 (λ c. w.acyclic (HasCycle-IsCyclic steps c)),
  ),
)

-- The checks always end with a list of errors, and the list is empty exactly if there is a step,
-- no two steps share an id, every dependency is the id of a step, and no step depends on itself
-- over one step or more.
pub validate_iff :
    (steps : List WorkflowStep)
    → (errors : List Text) × (validate_workflow_graph steps ≡ some errors)
      × ((errors ≡ []) ↔ IsWellFormed steps)
unfolding validate_workflow_graph
validate_iff steps =
    let (t, found, flag) = find_cycle_total steps in
    (errors_of steps t, rw found, errors_of_iff steps t flag)
