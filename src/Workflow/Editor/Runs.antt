-- ===== src/Workflow/Editor/Runs.antt =====
-- What the run button submits.
use mathlib.Core.List.{Memᴰ}
use agent_os_test.Prelude.{
  ◌≡◌, ◌≢◌, refl, sym, ap, ◌↔◌, inl, inr, Option, none, some, List, [], ◌∷◌, map, Text,
  Option-cases, some_inj, none_elim,
}
use agent_os_test.Json.{Value}
use agent_os_test.Types.Workflows.{WorkflowStep}
use agent_os_test.Workflow.Validate.Graph.{IsCyclic}
use agent_os_test.Workflow.Validate.Accepts.{IsWellFormed, validate_iff}
use agent_os_test.Workflow.Editor.{
  Node, Edge, on_save_step, Editor, Submission, steps_from_graph, step_of, read_context, run,
  run_checked,
}
use agent_os_test.Workflow.Editor.Sound.{IsSound, IsSound-steps}

map-nil {ℓ κ} : {A : Type ℓ} {B : Type κ} (f : A → B) (xs : List A) → map f xs ≡ [] → xs ≡ []
map-nil f [] h = refl
map-nil f (x ∷ xs) h = absurd (cc)

-- The steps of a sound editor are well formed exactly if there is one and they form no cycle.
steps_from_graph-IsWellFormed :
    (ed : Editor)
    → IsSound ed
    → IsWellFormed (steps_from_graph ed) ↔ ((ed.nodes ≢ []) × (¬ IsCyclic (steps_from_graph ed)))
unfolding steps_from_graph
steps_from_graph-IsWellFormed ed h = (
  λ w. (λ e. w.nonempty (ap (map (step_of ed.edges)) e), w.acyclic),
  λ (some_node, acyclic). record {
    nonempty = λ e. some_node (map-nil (step_of ed.edges) ed.nodes e);
    distinct = (IsSound-steps ed h).0;
    known = (IsSound-steps ed h).1;
    acyclic = acyclic;
  },
)

-- The request for the graph of the editor with a context.
abbrev pub submission : Text → Editor → Value → Submission
submission id ed context = record {
  definition = record { id = id; name = ed.name; steps = steps_from_graph ed };
  context = context;
}

submission_inj :
    (id : Text) (ed : Editor) (v w : Value)
    → some (submission id ed v) ≡ some (submission id ed w)
    → v ≡ w
submission_inj id ed v w h = ap (λ (s : Submission). s.context) (some_inj h)

run_checked_iff :
    (parse_value : Text → Option Value) (id : Text) (ed : Editor) (errors : List Text)
    → let result = run_checked parse_value id ed errors in
      ((context : Value)
        → (result.1 ≡ some (submission id ed context))
          ↔ ((errors ≡ []) × (read_context parse_value ed.context_text ≡ some context)))
      × ((result.1 ≡ none) ↔ (result.0.validation_errors ≢ []))
run_checked_iff parse_value id ed (e ∷ errors) =
    (λ context. (λ h. none_elim h, λ h. absurd (cc)), (λ h k. cc, λ _. refl))
run_checked_iff parse_value id ed [] =
    elim (Option-cases (read_context parse_value ed.context_text)) [
      | inl wrong ↦
          rw (wrong, run_checked)
            (λ context. (λ h. none_elim h, λ (_, h). none_elim h), (λ h k. cc, λ _. refl))
      | inr (v, e) ↦
          rw (e, run_checked)
            (
              λ context. (
                λ h. (refl, ap some (submission_inj id ed v context h)),
                λ (_, h). ap (λ w. some (submission id ed w)) (some_inj h),
              ),
              (λ h. none_elim (sym h), λ h. absurd (h refl)),
            )
    ]

-- Pressing the run button on a sound editor ends. It submits the steps of the graph with a context
-- exactly if there is a node, no step depends on itself, over however many steps, and the text of
-- the context reads as that. It shows a message exactly if it submits nothing.
pub run_iff :
    (parse_value : Text → Option Value) (id : Text) (ed : Editor)
    → IsSound ed
    → (new : Editor) × (sent : Option Submission) × (run parse_value id ed ≡ some (new, sent))
      × ((context : Value)
          → (sent ≡ some (submission id ed context)) ↔ (
              (ed.nodes ≢ [])
              × (¬ IsCyclic (steps_from_graph ed))
              × (read_context parse_value ed.context_text ≡ some context)))
      × ((sent ≡ none) ↔ (new.validation_errors ≢ []))
unfolding run
run_iff parse_value id ed h =
    let (errors, checked, clean) = validate_iff (steps_from_graph ed) in
    let sound = steps_from_graph-IsWellFormed ed h in
    let result = run_checked_iff parse_value id ed errors in
    (
      (run_checked parse_value id ed errors).0,
      (run_checked parse_value id ed errors).1,
      rw (checked, run) refl,
      λ context. (
        λ e.
            let (none_wrong, reads) = (result.0 context).0 e in
            let (some_node, acyclic) = sound.0 (clean.0 none_wrong) in (some_node, acyclic, reads),
        λ (some_node, acyclic, reads).
            (result.0 context).1 (clean.1 (sound.1 (some_node, acyclic)), reads),
      ),
      result.1,
    )

Mem-steps :
    (edges : List Edge) (step : WorkflowStep) (ns : List Node)
    → Memᴰ step (map (step_of edges) ns)
    → step.input ≡ []
Mem-steps edges step [] m = elim m [ ]
Mem-steps edges step (n ∷ ns) (Memᴰ.head same) = ap (λ (s : WorkflowStep). s.input) same
Mem-steps edges step (n ∷ ns) (Memᴰ.tail m) = Mem-steps edges step ns m

-- If the step that is saved has an input that is not empty, it is not among the steps of the graph
-- afterwards.
pub on_save_step-drops :
    (step : WorkflowStep) (ed : Editor)
    → step.input ≢ []
    → ¬ Memᴰ step (steps_from_graph (on_save_step step ed))
unfolding steps_from_graph on_save_step
on_save_step-drops step ed filled m =
    filled (Mem-steps (on_save_step step ed).edges step (on_save_step step ed).nodes m)
