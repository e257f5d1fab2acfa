-- ===== src/Workflow/Editor/Sound.antt =====
-- The invariant of the editor, and what it says of the steps of its graph.
use mathlib.Core.List.{Memᴰ}
use agent_os_test.Prelude.{
  ◌≡◌, ◌≢◌, refl, sym, ap, ◌∙◌, inl, inr, Bool, true, List, [], ◌∷◌, map, Text, text_has_eq, ◌==◌,
  filter, contains, Distinct, All, Bool-cases,
}
use agent_os_test.Workflow.Validate.{ids_of}
use agent_os_test.Workflow.Validate.Accepts.{KnowsAll}
use agent_os_test.Workflow.Editor.{
  Node, Edge, Editor, node_id, depends_on, step_of, steps_from_graph,
}

abbrev pub node_ids : Editor → List Text
node_ids ed = map node_id ed.nodes

-- No id is used twice, and every edge joins two nodes of the editor.
pub record IsSound (ed : Editor) : Type 0 where
  pub distinct : Distinct (node_ids ed)
  pub anchored :
      (e : Edge)
      → Memᴰ e ed.edges
      → (contains e.source (node_ids ed) ≡ true) × (contains e.target (node_ids ed) ≡ true)
  pub simple : (e : Edge) → Memᴰ e ed.edges → e.source ≢ e.target

Mem-kept :
    (p : Edge → Bool) (e d : Edge) (es : List Edge)
    → p d ≡ true
    → (Memᴰ e (filter p es) → Memᴰ e es × (p e ≡ true))
    → Memᴰ e (d ∷ filter p es)
    → Memᴰ e (d ∷ es) × (p e ≡ true)
Mem-kept p e d es kept rest (Memᴰ.head same) = (Memᴰ.head same, ap p same ∙ kept)
Mem-kept p e d es kept rest (Memᴰ.tail m) = let (in_es, holds) = rest m in (Memᴰ.tail in_es, holds)

pub Mem-filter :
    (p : Edge → Bool) (e : Edge) (es : List Edge) → Memᴰ e (filter p es) → Memᴰ e es × (p e ≡ true)
Mem-filter p e [] m = elim m [ ]
Mem-filter p e (d ∷ es) m = elim (Bool-cases (p d)) [
  | inl kept ↦ Mem-kept p e d es kept (Mem-filter p e es) (rw kept at m)
  | inr gone ↦ let (rest, holds) = Mem-filter p e es (rw gone at m) in (Memᴰ.tail rest, holds)
]

pub filter-Mem :
    (p : Edge → Bool) (e : Edge) (es : List Edge) → Memᴰ e es → p e ≡ true → Memᴰ e (filter p es)
filter-Mem p e [] m h = elim m [ ]
filter-Mem p e (d ∷ es) (Memᴰ.head same) h =
    let kept : p d ≡ true = ap p (sym same) ∙ h in rw kept (Memᴰ.head same)
filter-Mem p e (d ∷ es) (Memᴰ.tail m) h = elim (Bool-cases (p d)) [
  | inl kept ↦ rw kept (Memᴰ.tail (filter-Mem p e es m h))
  | inr gone ↦ rw gone (filter-Mem p e es m h)
]

pub ids_of-steps :
    (edges : List Edge) (nodes : List Node) → ids_of (map (step_of edges) nodes) ≡ map node_id nodes
ids_of-steps edges [] = refl
ids_of-steps edges (n ∷ nodes) = ap (λ t. n.id ∷ t) (ids_of-steps edges nodes)

known-depends_on :
    (ids : List Text) (es : List Edge) (id : Text)
    → ((e : Edge) → Memᴰ e es → contains e.source ids ≡ true)
    → All (λ d. contains d ids ≡ true) (depends_on es id)
known-depends_on ids [] id h = tt
known-depends_on ids (e ∷ es) id h =
    let rest = known-depends_on ids es id (λ d m. h d (Memᴰ.tail m)) in
    let this = h e (Memᴰ.head refl) in
    elim (Bool-cases (e.target == id)) [
      | inl into ↦ rw into (this, rest)
      | inr other ↦ rw other rest
    ]

known-steps :
    (ids : List Text) (es : List Edge) (nodes : List Node)
    → ((e : Edge) → Memᴰ e es → contains e.source ids ≡ true)
    → All (KnowsAll ids) (map (step_of es) nodes)
known-steps ids es [] h = tt
known-steps ids es (n ∷ nodes) h = (known-depends_on ids es n.id h, known-steps ids es nodes h)

-- The steps of a sound graph have different ids and know all their dependencies.
pub IsSound-steps :
    (ed : Editor)
    → IsSound ed
    → Distinct (ids_of (steps_from_graph ed))
      × All (KnowsAll (ids_of (steps_from_graph ed))) (steps_from_graph ed)
unfolding steps_from_graph
IsSound-steps ed h =
    rw (ids_of-steps ed.edges ed.nodes)
      (h.distinct, known-steps (node_ids ed) ed.edges ed.nodes (λ e m. (h.anchored e m).0))
