-- ===== src/Workflow/Editor/Keeps.antt =====
-- Every operation on the graph keeps the invariant of the editor.

use agent_os_test.Prelude.{
  ◌≡◌, ◌≢◌, refl, sym, ap, ◌∙◌, ◌⊎◌, inl, inr, Bool, true, false, not, none, List, [], ◌∷◌, ◌++◌,
  map, Text, text_has_eq, text_eq_iff, ◌==◌, filter, contains, contains-append, Distinct, arith,
  Option-cases, none_elim,
}
use agent_os_test.Types.Workflows.{WorkflowStep}
use agent_os_test.Workflow.Editor.{
  Node, Editor, node_id, step_to_node, update_node, is_away, delete_step, on_save_step,
}
use agent_os_test.Workflow.Editor.Sound.{node_ids, IsSound, Mem-filter}

-- The invariant is about the ids and the edges.
pub same-IsSound :
    (old new : Editor)
    → node_ids new ≡ node_ids old
    → new.edges ≡ old.edges
    → IsSound old
    → IsSound new
same-IsSound old new i e h = record {
  distinct = rw i h.distinct;
  anchored = rw (i, e) h.anchored;
  simple = rw e h.simple;
}

ids-update :
    (step : WorkflowStep) (ns : List Node)
    → map node_id (map (update_node step) ns) ≡ map node_id ns
ids-update step [] = refl
ids-update step (n ∷ ns) = ground (arith, ids-update step ns)

ids-append : (ns ms : List Node) → map node_id (ns ++ ms) ≡ map node_id ns ++ map node_id ms
ids-append [] ms = refl
ids-append (n ∷ ns) ms = ap (λ t. n.id ∷ t) (ids-append ns ms)

Distinct-snoc :
    (xs : List Text) (x : Text) → Distinct xs → contains x xs ≡ false → Distinct (xs ++ (x ∷ []))
Distinct-snoc [] x h k = (refl, tt)
Distinct-snoc (y ∷ xs) x (h, hs) k =
    ground (
      arith,
      Distinct-snoc xs x hs,
      contains-append y xs (x ∷ []),
      text_eq_iff x y,
      text_eq_iff y x,
    )

pub contains-filter-le :
    (p : Node → Bool) (id : Text) (ns : List Node)
    → contains id (map node_id ns) ≡ false
    → contains id (map node_id (filter p ns)) ≡ false
contains-filter-le p id [] h = h
contains-filter-le p id (n ∷ ns) h = ground (arith, contains-filter-le p id ns)

pub Distinct-filter :
    (p : Node → Bool) (ns : List Node)
    → Distinct (map node_id ns)
    → Distinct (map node_id (filter p ns))
Distinct-filter p [] h = tt
Distinct-filter p (n ∷ ns) (h, hs) =
    ground (arith, Distinct-filter p ns hs, contains-filter-le p n.id ns h)

contains-delete :
    (id x : Text) (ns : List Node)
    → contains id (map node_id ns) ≡ true
    → (id == x) ≡ false
    → contains id (map node_id (filter (λ n. not (n.id == x)) ns)) ≡ true
contains-delete id x [] h k = h
contains-delete id x (n ∷ ns) h k =
    ground
      (arith, contains-delete id x ns, text_eq_iff id n.id, text_eq_iff n.id x, text_eq_iff id x)

-- Deleting a step leaves no edge without its nodes.
pub delete_step-IsSound : (id : Text) (ed : Editor) → IsSound ed → IsSound (delete_step id ed)
unfolding delete_step
delete_step-IsSound id ed h = record {
  distinct = Distinct-filter (λ n. not (n.id == id)) ed.nodes h.distinct;
  anchored = λ e m.
      let (old, away) = Mem-filter (is_away id) e ed.edges m in
      let (source, target) = h.anchored e old in
      (
        contains-delete e.source id ed.nodes source (ground arith),
        contains-delete e.target id ed.nodes target (ground arith),
      );
  simple = λ e m. h.simple e (Mem-filter (is_away id) e ed.edges m).0;
}

edges-on_save_step : (step : WorkflowStep) (ed : Editor) → (on_save_step step ed).edges ≡ ed.edges
unfolding on_save_step
edges-on_save_step step ed = ground arith

-- The ids after a step is saved.
ids-on_save_step :
    (step : WorkflowStep) (ed : Editor)
    → ((ed.editing_step ≢ none) × (node_ids (on_save_step step ed) ≡ node_ids ed))
      ⊎ ((ed.editing_step ≡ none)
          × (node_ids (on_save_step step ed) ≡ node_ids ed ++ (step.id ∷ [])))
unfolding on_save_step step_to_node
ids-on_save_step step ed = elim (Option-cases ed.editing_step) [
  | inl adding ↦ inr (adding, rw (adding, on_save_step) (ids-append ed.nodes _))
  | inr (s, editing) ↦
      inl (λ e. none_elim (sym e ∙ editing), rw (editing, on_save_step) (ids-update step ed.nodes))
]

contains-snoc :
    (id x : Text) (xs : List Text) → contains id xs ≡ true → contains id (xs ++ (x ∷ [])) ≡ true
contains-snoc id x xs h = ground (arith, contains-append id xs (x ∷ []))

pub on_save_step-IsSound :
    (step : WorkflowStep) (ed : Editor)
    → IsSound ed
    → (ed.editing_step ≡ none → contains step.id (node_ids ed) ≡ false)
    → IsSound (on_save_step step ed)
on_save_step-IsSound step ed h fresh = elim (ids-on_save_step step ed) [
  | inl (_, ids) ↦ same-IsSound ed (on_save_step step ed) ids (edges-on_save_step step ed) h
  | inr (adding, ids) ↦ record {
    distinct = rw ids (Distinct-snoc (node_ids ed) step.id h.distinct (fresh adding));
    anchored = λ e m.
        let (source, target) = h.anchored e (rw (edges-on_save_step step ed) at m) in
        (
          rw ids (contains-snoc e.source step.id (node_ids ed) source),
          rw ids (contains-snoc e.target step.id (node_ids ed) target),
        );
    simple = rw (edges-on_save_step step ed) h.simple;
  }
]
