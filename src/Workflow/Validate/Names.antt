-- ===== src/Workflow/Validate/Names.antt =====
-- The ids that `invalidStepIds` finds in the messages are those of the broken steps.
use mathlib.Core.Bool.{or-true}
use mathlib.Core.Path.{subst}
use mathlib.Core.Logic.{⊎_elim}
use mathlib.Core.List.{Memᴰ}
use mathlib.Core.List.Memᴰ
use agent_os_test.Prelude.{
  ◌≡◌, refl, sym, Or-cases, And-cases, ◌↔◌, ◌⊎◌, inl, inr, ap, true, false, not, some, List, [],
  ◌∷◌, ◌==◌, Text, text_has_eq, text_eq_iff, eq_refl, contains, set_of, contains-set_of, filter,
  is_empty, All, Bool-cases,
}
use agent_os_test.Types.Workflows.{WorkflowStep}
use agent_os_test.Workflow.Validate.{ids_of, errors_of, validate_workflow_graph, invalid_step_ids}
use agent_os_test.Workflow.Validate.Accepts.{find_cycle_total}
use agent_os_test.Workflow.Validate.Messages.{IsPlain, is_invalid, any_invalid, errors-invalid}

-- A dependency names no step, or the step itself.
abbrev pub IsBroken : List Text → WorkflowStep → Type 0
IsBroken ids s =
    ((d : Text) × (contains d s.depends_on ≡ true) × (contains d ids ≡ false))
    ⊎ (contains s.id s.depends_on ≡ true)

missing_iff :
    (ids ds : List Text)
    → (not (is_empty (filter (λ d. not (contains d (set_of ids))) ds)) ≡ true)
      ↔ ((d : Text) × (contains d ds ≡ true) × (contains d ids ≡ false))
missing_iff ids [] = (λ h. cc, λ (d, h, _). cc)
missing_iff ids (d ∷ ds) = elim (Bool-cases (contains d ids)) [
  | inl known ↦
      let rest = missing_iff ids ds in
      rw (contains-set_of d ids, known)
        (
          λ h. let (x, mem, out) = rest.0 h in (x, rw mem (or-true _), out),
          λ (x, mem, out). elim (Bool-cases (x == d)) [
            | inl same ↦
                let listed : contains x ids ≡ true = rw ((text_eq_iff x d).0 same) known in cc
            | inr other ↦ rest.1 (x, rw other at mem, out)
          ],
        )
  | inr unknown ↦ rw (contains-set_of d ids, unknown) (λ _. (d, rw (eq_refl d), unknown), λ _. refl)
]

is_invalid_iff :
    (ids : List Text) (s : WorkflowStep) → (is_invalid (set_of ids) s ≡ true) ↔ IsBroken ids s
is_invalid_iff ids s =
    let (there, back) = missing_iff ids s.depends_on in
    (
      λ h. ⊎_elim (λ l. inl (there l)) inr (Or-cases _ _ h),
      ⊎_elim (λ l. rw (back l)) (λ r. rw r (or-true _)),
    )

-- A step of the list with that id and a broken dependency.
abbrev pub NamesBroken : List Text → Text → List WorkflowStep → Type 0
NamesBroken ids i steps = (s : WorkflowStep) × Memᴰ s steps × (s.id ≡ i) × IsBroken ids s

any_invalid_iff :
    (ids : List Text) (i : Text) (steps : List WorkflowStep)
    → (any_invalid (set_of ids) i steps ≡ true) ↔ NamesBroken ids i steps
unfolding any_invalid
any_invalid_iff ids i [] = (λ h. cc, λ (s, mem, _, _). elim mem [ ])
any_invalid_iff ids i (s ∷ steps) =
    let (there, back) = any_invalid_iff ids i steps in
    (
      λ h. elim (Or-cases _ _ h) [
        | inl now ↦
            let (bad, same) = And-cases _ _ now in
            (s, Memᴰ.head refl, sym ((text_eq_iff i s.id).0 same), (is_invalid_iff ids s).0 bad)
        | inr later ↦ let (t, mem, e, bad) = there later in (t, Memᴰ.tail mem, e, bad)
      ],
      λ (t, mem, e, bad). elim (Memᴰ.cases_cons mem) [
        | inl now ↦
            let bad' : is_invalid (set_of ids) s ≡ true =
              (is_invalid_iff ids s).1 (subst (IsBroken ids) now bad) in
            let same : (i == s.id) ≡ true =
              (text_eq_iff i s.id).1 (cc (ap (λ (w : WorkflowStep). w.id) now)) in
            rw (bad', same)
        | inr later ↦ rw (back (t, later, e, bad)) (or-true _)
      ],
    )

-- If every id is plain (not empty, without a double quote), the ids read back from the errors of
-- the checks are exactly those of the steps with a dependency that names no step or the step
-- itself.
pub invalid_step_ids_iff :
    (steps : List WorkflowStep)
    → All (λ s. IsPlain s.id) steps
    → (i : Text)
    → (errors : List Text) × (validate_workflow_graph steps ≡ some errors)
      × ((contains i (invalid_step_ids errors) ≡ true) ↔ NamesBroken (ids_of steps) i steps)
unfolding validate_workflow_graph
invalid_step_ids_iff steps plain i =
    let (t, found, _) = find_cycle_total steps in
    (
      errors_of steps t,
      rw found,
      rw (errors-invalid steps t i plain) (any_invalid_iff (ids_of steps) i steps),
    )
