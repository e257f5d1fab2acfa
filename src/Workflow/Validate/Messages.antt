-- ===== src/Workflow/Validate/Messages.antt =====
-- The messages of `validateWorkflowGraph`, as `invalidStepIds` reads them.
use mathlib.Core.Bool.{or-false}
use mathlib.Core.List.{append_assoc}
use agent_os_test.Prelude.{
  ◌≡◌, ◌≢◌, refl, inl, inr, ◌∙◌, ap, ◌&&◌, Bool, true, false, not, ◌||◌, none, some, List, [], ◌∷◌,
  ◌++◌, ◌==◌, Text, text_has_eq, contains, contains-set_add, set_of, length, is_empty, eqb, arith,
  All, Option-cases,
}
use agent_os_test.Types.Workflows.{WorkflowStep}
use agent_os_test.Workflow.Cycle.{Search}
use agent_os_test.Workflow.Validate.{
  ids_of, no_steps, duplicate_ids, has_cycle, push_if, step_prefix, missing_of, unknown_message,
  self_message, step_errors, each_step_errors, errors_of, strip_prefix, capture, match_at,
  match_step, invalid_step_ids,
}

-- An id that the quotes of a message can hold: not empty, and without a double quote.
abbrev HasNoQuote : Text → Type 0
HasNoQuote id = All (λ c. c ≢ b'"') id

abbrev pub IsPlain : Text → Type 0
IsPlain id = (id ≢ []) × HasNoQuote id

strip_prefix-append : (p s : Text) → strip_prefix p (p ++ s) ≡ some s
unfolding strip_prefix
strip_prefix-append [] s = refl
strip_prefix-append (c ∷ p) s = ground (arith, strip_prefix-append p s)

capture-quoted : (id rest : Text) → HasNoQuote id → capture (id ++ (b'"' ∷ rest)) ≡ some id
unfolding capture
capture-quoted [] rest h = refl
capture-quoted (c ∷ id) rest (h, k) = ground (arith, capture-quoted id rest k)

match_at-quoted :
    (id rest : Text) → IsPlain id → match_at (step_prefix ++ (id ++ (b'"' ∷ rest))) ≡ some id
unfolding match_at
match_at-quoted [] rest (h, k) = absurd (h refl)
match_at-quoted (c ∷ id) rest (h, k) =
    rw (strip_prefix-append step_prefix ((c ∷ id) ++ (b'"' ∷ rest)), match_at)
      (rw (capture-quoted (c ∷ id) rest k))

-- A message that begins with `Step "`, an id and a quote is read back as the id.
match_step-quoted :
    (id rest : Text) → IsPlain id → match_step (step_prefix ++ (id ++ (b'"' ∷ rest))) ≡ some id
unfolding match_step
match_step-quoted id rest h = rw (match_at-quoted id rest h, match_step)

invalid-cons_some :
    (error : Text) (errors : List Text) (i : Text) {id : Text}
    → match_step error ≡ some id
    → contains i (invalid_step_ids (error ∷ errors))
      ≡ (i == id || contains i (invalid_step_ids errors))
unfolding invalid_step_ids
invalid-cons_some error errors i {id} h =
    rw (h, invalid_step_ids) (contains-set_add i id (invalid_step_ids errors))

invalid-cons_none :
    (error : Text) (errors : List Text)
    → match_step error ≡ none
    → invalid_step_ids (error ∷ errors) ≡ invalid_step_ids errors
unfolding invalid_step_ids
invalid-cons_none error errors h = rw (h, invalid_step_ids)

invalid-append :
    (i : Text) (xs ys : List Text)
    → contains i (invalid_step_ids (xs ++ ys))
      ≡ (contains i (invalid_step_ids xs) || contains i (invalid_step_ids ys))
invalid-append i [] ys = unfold invalid_step_ids in refl
invalid-append i (e ∷ xs) ys = elim (Option-cases (match_step e)) [
  | inl h ↦ rw (invalid-cons_none e (xs ++ ys) h, invalid-cons_none e xs h) (invalid-append i xs ys)
  | inr (id, h) ↦
      rw (invalid-cons_some e (xs ++ ys) i h, invalid-cons_some e xs i h)
        (ground (arith, invalid-append i xs ys))
]

push-invalid :
    (b : Bool) (message i : Text) {id : Text}
    → match_step message ≡ some id
    → contains i (invalid_step_ids (push_if b message)) ≡ (b && i == id)
push-invalid true message i h =
    invalid-cons_some message [] i h ∙ (unfold invalid_step_ids in or-false _)
push-invalid false message i h = unfold invalid_step_ids in refl

push-plain :
    (b : Bool) (message i : Text)
    → match_step message ≡ none
    → contains i (invalid_step_ids (push_if b message)) ≡ false
push-plain true message i h =
    ap (contains i) (invalid-cons_none message [] h) ∙ (unfold invalid_step_ids in refl)
push-plain false message i h = unfold invalid_step_ids in refl

-- The dependencies of the step that name no step, or its own id, make it invalid.
abbrev pub is_invalid : List Text → WorkflowStep → Bool
is_invalid id_set s = not (is_empty (missing_of id_set s)) || contains s.id s.depends_on

step-invalid :
    (id_set : List Text) (s : WorkflowStep) (i : Text)
    → IsPlain s.id
    → contains i (invalid_step_ids (step_errors id_set s)) ≡ (is_invalid id_set s && i == s.id)
step-invalid id_set s i plain =
    let unknown = not (is_empty (missing_of id_set s)) in
    let self = contains s.id s.depends_on in
    let first =
      push-invalid unknown (unknown_message s.id (missing_of id_set s)) i
        (match_step-quoted s.id _ plain) in
    let second = push-invalid self (self_message s.id) i (match_step-quoted s.id _ plain) in
    invalid-append i (push_if unknown (unknown_message s.id (missing_of id_set s)))
      (push_if self (self_message s.id))
    ∙ ground (arith, first, second)

unfoldable pub any_invalid : List Text → Text → List WorkflowStep → Bool
any_invalid id_set i [] = false
any_invalid id_set i (s ∷ steps) = (is_invalid id_set s && i == s.id) || any_invalid id_set i steps

each-invalid :
    (id_set : List Text) (steps : List WorkflowStep) (i : Text)
    → All (λ s. IsPlain s.id) steps
    → contains i (invalid_step_ids (each_step_errors id_set steps)) ≡ any_invalid id_set i steps
unfolding any_invalid
each-invalid id_set [] i plain = unfold invalid_step_ids in refl
each-invalid id_set (s ∷ steps) i (p, ps) =
    invalid-append i (step_errors id_set s) (each_step_errors id_set steps)
    ∙ rw (step-invalid id_set s i p, each-invalid id_set steps i ps)

pub errors-invalid :
    (steps : List WorkflowStep) (t : Search) (i : Text)
    → All (λ s. IsPlain s.id) steps
    → contains i (invalid_step_ids (errors_of steps t))
      ≡ any_invalid (set_of (ids_of steps)) i steps
unfolding errors_of
errors-invalid steps t i plain =
    let ids = ids_of steps in
    simp (
      invalid-append i,
      push-plain (is_empty steps) no_steps i (unfold match_step match_at strip_prefix in refl),
      push-plain (not (eqb (length ids) (length (set_of ids)))) duplicate_ids i
          (unfold match_step match_at strip_prefix in refl),
      push-plain t.cycle has_cycle i (unfold match_step match_at strip_prefix in refl),
      each-invalid (set_of ids) steps i plain,
      or-false,
    )

-- An id with a double quote in it, behind a plain part, is read back as that part: no message that
-- names the step gives its id.
pub match_step-split :
    (part rest : Text) (missing : List Text)
    → IsPlain part
    → (match_step (self_message (part ++ (b'"' ∷ rest))) ≡ some part)
      × (match_step (unknown_message (part ++ (b'"' ∷ rest)) missing) ≡ some part)
match_step-split part rest missing h = (
  ap (λ t. match_step (step_prefix ++ t)) (append_assoc part (b'"' ∷ rest) _)
      ∙ match_step-quoted part _ h,
  ap (λ t. match_step (step_prefix ++ t)) (append_assoc part (b'"' ∷ rest) _)
      ∙ match_step-quoted part _ h,
)
