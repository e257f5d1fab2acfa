-- ===== src/Workflow/Editor/Tests.antt =====
-- The theorems on the editor at small graphs.
use mathlib.Core.List.{Memᴰ}
use agent_os_test.Prelude.{
  ◌≡◌, ◌≢◌, ◌↔◌, inl, inr, ap, false, Option, none, some, List, [], ◌∷◌, Text, units, text_has_eq,
}
use agent_os_test.Json.{Value}
use agent_os_test.Workflow.Validate.Graph.{IsCyclic}
use agent_os_test.Workflow.Editor.{
  Edge, Connection, Editor, Submission, initial_editor, steps_from_graph, add_step, delete_step,
  read_context, run,
}
use agent_os_test.Workflow.Editor.Sound.{IsSound}
use agent_os_test.Workflow.Editor.Reaches.{Joins, opens, next, adds, deletes, Reaches-IsSound}
use agent_os_test.Workflow.Editor.Runs.{submission, run_iff}

-- An `addEdge` that puts the edge in front.
abbrev draw : Connection → List Edge → List Edge
draw c es = record { source = c.source; target = c.target; selected = false } ∷ es

draw-Joins : Joins draw
draw-Joins c es e (Memᴰ.head same) =
    inr (ap (λ (x : Edge). x.source) same, ap (λ (x : Edge). x.target) same)
draw-Joins c es e (Memᴰ.tail m) = inl m

abbrev no_json : Text → Option (List (Text × Value))
no_json t = none

abbrev no_value : Text → Option Value
no_value t = none

Reaches-IsSound_example : IsSound (delete_step (units "start") (add_step initial_editor))
Reaches-IsSound_example =
    Reaches-IsSound no_json no_value draw draw-Joins
      (delete_step (units "start") (add_step initial_editor))
      (next _ _ (next _ _ opens adds) (deletes (units "start")))

run_iff_example :
    (new : Editor) × (sent : Option Submission) × (run no_value (units "id") initial_editor
      ≡ some (new, sent))
    × ((context : Value)
        → (sent ≡ some (submission (units "id") initial_editor context)) ↔ (
            (initial_editor.nodes ≢ [])
            × (¬ IsCyclic (steps_from_graph initial_editor))
            × (read_context no_value initial_editor.context_text ≡ some context)))
    × ((sent ≡ none) ↔ (new.validation_errors ≢ []))
run_iff_example =
    run_iff no_value (units "id") initial_editor
      (Reaches-IsSound no_json no_value draw draw-Joins initial_editor opens)
