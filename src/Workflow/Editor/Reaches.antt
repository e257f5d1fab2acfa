-- ===== src/Workflow/Editor/Reaches.antt =====
-- Every editor that the operations lead to is sound.
use mathlib.Core.List.{Memᴰ}
use agent_os_test.Prelude.{
  ◌≡◌, refl, sym, ap, ◌∙◌, ◌⊎◌, inl, inr, true, false, Option, some, List, [], ◌∷◌, map, Text,
  text_has_eq, text_eq_iff, ◌==◌, contains, arith, Bool-cases,
}
use agent_os_test.Json.{Value}
use agent_os_test.Types.Workflows.{WorkflowStep, WorkflowRun}
use agent_os_test.Session.History.{Codec, State}
use agent_os_test.Workflow.StepForm.{StepForm, Saved, rejected, saved, save}
use agent_os_test.Workflow.StepForm.Accepts.{save-IsNew}
use agent_os_test.Workflow.Validate.{validate_workflow_graph}
use agent_os_test.Workflow.Editor.{
  Node, Edge, Connection, Editor, initial_editor, node_id, edge_source, with_status, on_connect,
  edit_step, steps_from_graph, delete_step, add_step, on_save_step, close_dialog, submit,
  remove_selected, run_checked, run_started,
}
use agent_os_test.Workflow.Editor.Sound.{node_ids, IsSound}
use agent_os_test.Workflow.Editor.Keeps.{same-IsSound, delete_step-IsSound, on_save_step-IsSound}
use agent_os_test.Workflow.Editor.Removes.{Misses, remove_selected-IsSound}

Saved-cases :
    (s : Saved)
    → ((again : StepForm) × (s ≡ rejected again)) ⊎ ((step : WorkflowStep) × (s ≡ saved step))
Saved-cases (rejected again) = inl (again, refl)
Saved-cases (saved step) = inr (step, refl)

-- Saving the form of the dialog keeps the editor sound: a new step has an id of its own.
submit-IsSound :
    (parse_json : Text → Option (List (Text × Value))) (form : StepForm) (ed : Editor)
    → IsSound ed
    → IsSound (submit parse_json form ed).0
unfolding submit close_dialog
submit-IsSound parse_json form ed h =
    elim (Saved-cases (save parse_json ed.editing_step (map node_id ed.nodes) form)) [
      | inl (again, e) ↦ rw (e, submit) h
      | inr (step, e) ↦
          let fresh = save-IsNew parse_json ed.editing_step (node_ids ed) form step e in
          let kept = on_save_step-IsSound step ed h fresh.2 in
          rw (e, submit) (same-IsSound (on_save_step step ed) _ refl refl kept)
    ]

-- What `addEdge` does: the edges it returns are those it is given and an edge of the connection.
abbrev pub Joins : (Connection → List Edge → List Edge) → Type 0
Joins add_edge =
    (c : Connection) (es : List Edge) (e : Edge)
    → Memᴰ e (add_edge c es)
    → Memᴰ e es ⊎ ((e.source ≡ c.source) × (e.target ≡ c.target))

on_connect-IsSound :
    (add_edge : Connection → List Edge → List Edge)
    → Joins add_edge
    → (c : Connection) (ed : Editor) → IsSound ed
    → contains c.source (node_ids ed) ≡ true
    → contains c.target (node_ids ed) ≡ true
    → IsSound (on_connect add_edge c ed)
unfolding on_connect
on_connect-IsSound add_edge law c ed h source target = elim (Bool-cases (c.source == c.target)) [
  | inl loop ↦ rw (loop, on_connect) h
  | inr joins ↦
      rw (joins, on_connect)
        (record {
          distinct = h.distinct;
          anchored = λ e m. elim (law c ed.edges e m) [
            | inl old ↦ h.anchored e old
            | inr (from, to) ↦ (rw from source, rw to target)
          ];
          simple = λ e m. elim (law c ed.edges e m) [
            | inl old ↦ h.simple e old
            | inr (from, to) ↦
                λ same. let loop = (text_eq_iff c.source c.target).1 (sym from ∙ (same ∙ to)) in cc
          ];
        })
]

ids-map :
    (f : Node → Node)
    → ((n : Node) → (f n).id ≡ n.id)
    → (ns : List Node) → map node_id (map f ns) ≡ map node_id ns
ids-map f same [] = refl
ids-map f same (n ∷ ns) = simp (same, ids-map f same ns)

Mem-map :
    (g : Edge → Edge) (e : Edge) (es : List Edge)
    → Memᴰ e (map g es)
    → (d : Edge) × Memᴰ d es × (e ≡ g d)
Mem-map g e [] m = elim m [ ]
Mem-map g e (d ∷ es) (Memᴰ.head same) = (d, Memᴰ.head refl, same)
Mem-map g e (d ∷ es) (Memᴰ.tail m) =
    let (c, in_es, same) = Mem-map g e es m in (c, Memᴰ.tail in_es, same)

run_checked-graph :
    (parse_value : Text → Option Value) (id : Text) (ed : Editor) (errors : List Text)
    → let new = (run_checked parse_value id ed errors).0 in
      (new.nodes ≡ ed.nodes) × (new.edges ≡ ed.edges)
run_checked-graph parse_value id ed (error ∷ errors) = (refl, refl)
run_checked-graph parse_value id ed [] = ground arith

edit_step-graph :
    (id : Text) (ed : Editor)
    → ((edit_step id ed).nodes ≡ ed.nodes) × ((edit_step id ed).edges ≡ ed.edges)
unfolding edit_step
edit_step-graph id ed = ground arith

module _ (parse_json : Text → Option (List (Text × Value))) (parse_value : Text → Option Value)
    (add_edge : Connection → List Edge → List Edge) where
  -- One event at the editor. A connection is drawn between nodes that are shown, and the canvas
  -- may mark and move what it shows, which changes no id and no end of an edge. The selection is
  -- removed only where no edge stays at a removed node.
  pub data Acts (ed : Editor) : Editor → Type 0 where
    connects :
        (c : Connection)
        → contains c.source (node_ids ed) ≡ true
        → contains c.target (node_ids ed) ≡ true
        → Acts ed (on_connect add_edge c ed)
    edits : (id : Text) → Acts ed (edit_step id ed)
    deletes : (id : Text) → Acts ed (delete_step id ed)
    adds : Acts ed (add_step ed)
    closes : Acts ed (close_dialog ed)
    submits : (form : StepForm) → Acts ed (submit parse_json form ed).0
    removes :
        ((e : Edge)
          → Memᴰ e ed.edges
          → e.selected ≡ false
          → Misses e.source ed.nodes × Misses e.target ed.nodes)
        → Acts ed (remove_selected ed)
    renames :
        (name context_text : Text)
        → Acts ed (record ed { name = name; context_text = context_text })
    marks :
        (f : Node → Node) (g : Edge → Edge)
        → ((n : Node) → (f n).id ≡ n.id)
        → ((e : Edge) → ((g e).source ≡ e.source) × ((g e).target ≡ e.target))
        → Acts ed (record ed { nodes = map f ed.nodes; edges = map g ed.edges })
    runs :
        (id : Text) (errors : List Text)
        → validate_workflow_graph (steps_from_graph ed) ≡ some errors
        → Acts ed (run_checked parse_value id ed errors).0
    starts :
        (json : Codec) (created_at : Text) (started : WorkflowRun) (s : State)
        → Acts ed (run_started json created_at started ed s).0

  -- What a sequence of events leads to.
  pub data Reaches : Editor → Type 0 where
    opens : Reaches initial_editor
    next : (ed new : Editor) → Reaches ed → Acts ed new → Reaches new

  marks-IsSound :
      (ed : Editor) (f : Node → Node) (g : Edge → Edge)
      → ((n : Node) → (f n).id ≡ n.id)
      → ((e : Edge) → ((g e).source ≡ e.source) × ((g e).target ≡ e.target))
      → IsSound ed
      → IsSound (record ed { nodes = map f ed.nodes; edges = map g ed.edges })
  marks-IsSound ed f g ids ends h = record {
    distinct = rw (ids-map f ids ed.nodes) h.distinct;
    anchored = λ e m.
        let (d, old, same) = Mem-map g e ed.edges m in
        let source : e.source ≡ d.source = ap edge_source same ∙ (ends d).0 in
        let target : e.target ≡ d.target = ap (λ (x : Edge). x.target) same ∙ (ends d).1 in
        rw (source, target, ids-map f ids ed.nodes) (h.anchored d old);
    simple = λ e m.
        let (d, old, same) = Mem-map g e ed.edges m in
        let source : e.source ≡ d.source = ap edge_source same ∙ (ends d).0 in
        let target : e.target ≡ d.target = ap (λ (x : Edge). x.target) same ∙ (ends d).1 in
        rw (source, target) (h.simple d old);
  }

  Acts-IsSound : Joins add_edge → (ed new : Editor) → Acts ed new → IsSound ed → IsSound new
  unfolding add_step close_dialog run_started
  Acts-IsSound law ed new (connects c from to) h = on_connect-IsSound add_edge law c ed h from to
  Acts-IsSound law ed new (edits id) h =
      same-IsSound ed _ (ap (map node_id) (edit_step-graph id ed).0) (edit_step-graph id ed).1 h
  Acts-IsSound law ed new (deletes id) h = delete_step-IsSound id ed h
  Acts-IsSound law ed new adds h = same-IsSound ed _ refl refl h
  Acts-IsSound law ed new closes h = same-IsSound ed _ refl refl h
  Acts-IsSound law ed new (submits form) h = submit-IsSound parse_json form ed h
  Acts-IsSound law ed new (removes clear) h = remove_selected-IsSound ed h clear
  Acts-IsSound law ed new (renames name context_text) h = same-IsSound ed _ refl refl h
  Acts-IsSound law ed new (marks f g ids ends) h = marks-IsSound ed f g ids ends h
  Acts-IsSound law ed new (runs id errors checked) h =
      let (nodes, edges) = run_checked-graph parse_value id ed errors in
      same-IsSound ed _ (ap (map node_id) nodes) edges h
  Acts-IsSound law ed new (starts json created_at started s) h =
      same-IsSound ed _ (ids-map (with_status started) (λ n. refl) ed.nodes) refl h

  initial_editor-IsSound : IsSound initial_editor
  unfolding initial_editor
  initial_editor-IsSound = record {
    distinct = (refl, tt);
    anchored = λ e m. elim m [ ];
    simple = λ e m. elim m [ ];
  }

  -- If `addEdge` adds no edge but one of its connection, every editor that events lead to is
  -- sound: no two of its nodes have one id, every edge joins two nodes that are there, and no edge
  -- joins a node with itself. The events are those of `Acts`: connections are drawn between nodes
  -- that are shown, and the selection is removed only where no edge stays at a removed node.
  pub Reaches-IsSound : Joins add_edge → (ed : Editor) → Reaches ed → IsSound ed
  Reaches-IsSound law ed opens = initial_editor-IsSound
  Reaches-IsSound law ed (next old new r a) = Acts-IsSound law old new a (Reaches-IsSound law old r)
