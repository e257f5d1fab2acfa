-- ===== src/Workflow/Editor/Removes.antt =====
-- `removeSelected` of the editor: what it leaves.
use mathlib.Core.List.{Memᴰ}
use agent_os_test.Prelude.{
  ◌≡◌, ◌≢◌, refl, sym, ap, ◌∙◌, Bool, true, false, not, List, [], ◌∷◌, map, Text, text_has_eq,
  text_eq_iff, eq_refl, filter, contains, Distinct, arith,
}
use agent_os_test.Workflow.Editor.{Node, Edge, Editor, node_id, remove_selected}
use agent_os_test.Workflow.Editor.Sound.{IsSound, Mem-filter, filter-Mem}
use agent_os_test.Workflow.Editor.Keeps.{Distinct-filter, contains-filter-le}

abbrev stays : Node → Bool
stays n = not n.selected

-- The node, if it is selected, has another id.
abbrev pub Misses : Text → List Node → Type 0
Misses id ns = (n : Node) → Memᴰ n ns → n.selected ≡ true → n.id ≢ id

contains-stays :
    (id : Text) (ns : List Node)
    → Misses id ns
    → contains id (map node_id ns) ≡ true
    → contains id (map node_id (filter stays ns)) ≡ true
contains-stays id [] miss h = h
contains-stays id (n ∷ ns) miss h =
    let rest = contains-stays id ns (λ m i. miss m (Memᴰ.tail i)) in
    let this = miss n (Memᴰ.head refl) in ground (arith, rest, this, text_eq_iff id n.id)

-- If every edge at a selected node is selected, removing the selection keeps the editor sound.
pub remove_selected-IsSound :
    (ed : Editor)
    → IsSound ed
    → ((e : Edge)
        → Memᴰ e ed.edges
        → e.selected ≡ false
        → Misses e.source ed.nodes × Misses e.target ed.nodes)
    → IsSound (remove_selected ed)
unfolding remove_selected
remove_selected-IsSound ed h clear = record {
  distinct = Distinct-filter stays ed.nodes h.distinct;
  anchored = λ e m.
      let (old, kept) = Mem-filter (λ d. not d.selected) e ed.edges m in
      let (source, target) = h.anchored e old in
      let (away, off) = clear e old (ground arith) in
      (contains-stays e.source ed.nodes away source, contains-stays e.target ed.nodes off target);
  simple = λ e m. h.simple e (Mem-filter (λ d. not d.selected) e ed.edges m).0;
}

contains_Mem : (n : Node) (ns : List Node) → Memᴰ n ns → contains n.id (map node_id ns) ≡ true
contains_Mem n [] i = elim i [ ]
contains_Mem n (m ∷ ns) (Memᴰ.head same) = rw same (rw (eq_refl m.id) refl)
contains_Mem n (m ∷ ns) (Memᴰ.tail i) = ground (arith, contains_Mem n ns i)

contains-gone :
    (n : Node) (ns : List Node)
    → Distinct (map node_id ns)
    → Memᴰ n ns
    → n.selected ≡ true
    → contains n.id (map node_id (filter stays ns)) ≡ false
contains-gone n [] h i on = elim i [ ]
contains-gone n (m ∷ ns) (h, hs) (Memᴰ.head same) on =
    let same_id : n.id ≡ m.id = ap (λ (k : Node). k.id) same in
    let same_on : m.selected ≡ true = ap (λ (k : Node). k.selected) (sym same) ∙ on in
    rw (same_on, same_id) (contains-filter-le stays m.id ns h)
contains-gone n (m ∷ ns) (h, hs) (Memᴰ.tail i) on =
    ground (arith, contains-gone n ns hs i on, contains_Mem n ns i, text_eq_iff n.id m.id)

-- If an edge that is not selected starts at a selected node, removing the selection leaves it
-- without its source: the editor is no longer sound.
pub remove_selected-dangling :
    (ed : Editor) (n : Node) (e : Edge)
    → IsSound ed
    → Memᴰ n ed.nodes
    → n.selected ≡ true
    → Memᴰ e ed.edges
    → e.selected ≡ false
    → e.source ≡ n.id
    → ¬ IsSound (remove_selected ed)
unfolding remove_selected
remove_selected-dangling ed n e h at_n on at_e off starts k =
    let left = filter-Mem (λ d. not d.selected) e ed.edges at_e (ground arith) in
    let known = (k.anchored e left).0 in
    let gone = contains-gone n ed.nodes h.distinct at_n on in cc
