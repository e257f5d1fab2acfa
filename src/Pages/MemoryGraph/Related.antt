-- ===== src/Pages/MemoryGraph/Related.antt =====
-- Which memories frontend/src/components/memory/MemoryGraph.tsx joins.
use mathlib.Core.List.{Memᴰ}
use agent_os_test.Prelude.{
  ◌≡◌, ◌≢◌, refl, sym, ap, ◌∙◌, ◌↔◌, ◌⊎◌, inl, inr, ℕ, zero, suc, ◌<◌, true, false, not, ◌&&◌,
  Option, none, some, List, [], ◌∷◌, ◌++◌, Text, units, text_has_eq, ◌==◌, length, contains,
  is_empty, get_elem?, Mem_filter, Bool-cases, And-cases, some_inj, none_elim, arith,
}
use agent_os_test.Types.Memory.{MemoryRecord}
use agent_os_test.Pages.MemoryGraph.{
  GraphEdge, same_id, shared_tags, labelled, first_of, or_else, edge_reason, build_edges,
}
use agent_os_test.Pages.MemoryGraph.Edges.{edges_from-Mem, Mem-edges_from}

-- Two records have a tag in common, or one project or task that is not empty.
abbrev pub SharesId : Option Text → Option Text → Type 0
SharesId x y = (s : Text) × (s ≢ []) × (x ≡ some s) × (y ≡ some s)

abbrev pub IsRelated : MemoryRecord → MemoryRecord → Type 0
IsRelated x y =
    ((tag : Text) × Memᴰ tag x.tags × (contains tag y.tags ≡ true))
    ⊎ (SharesId x.project_id y.project_id ⊎ SharesId x.task_id y.task_id)

same_id_iff : (x y : Option Text) → ((s : Text) × (same_id x y ≡ some s)) ↔ SharesId x y
same_id_iff none y = (λ (r, e). none_elim e, λ (r, n, e, f). none_elim e)
same_id_iff (some s) none = (λ (r, e). none_elim e, λ (r, n, e, f). none_elim f)
same_id_iff (some s) (some t) = elim (Bool-cases (not (is_empty s) && s == t)) [
  | inl both ↦
      let (full, same) = And-cases (not (is_empty s)) (s == t) both in
      let e : s ≡ t = (text_has_eq.is_same_iff s t).0 same in
      rw both (λ _. (s, nonempty s full, refl, ap some (sym e)), λ _. (s, refl))
  | inr differs ↦ rw differs (
    λ (r, e). none_elim e,
    λ (r, n, e, f).
        let same : s ≡ t = some_inj e ∙ sym (some_inj f) in
        absurd (n (sym (some_inj e) ∙ emptied s t same differs)),
  )
]
  where
    nonempty : (s : Text) → not (is_empty s) ≡ true → s ≢ []
    nonempty [] h = λ e. cc
    nonempty (c ∷ s) h = λ e. cc

    emptied : (s t : Text) → s ≡ t → (not (is_empty s) && s == t) ≡ false → s ≡ []
    emptied [] t e h = refl
    emptied (c ∷ s) t e h = let same = (text_has_eq.is_same_iff (c ∷ s) t).1 e in ground arith

or_else_iff :
    (x y : Option Text)
    → ((s : Text) × (or_else x y ≡ some s))
      ↔ (((s : Text) × (x ≡ some s)) ⊎ ((s : Text) × (y ≡ some s)))
or_else_iff none y = (λ h. inr h, λ h. elim h [ inl (s, e) ↦ none_elim e | inr k ↦ k ])
or_else_iff (some r) y = (λ h. inl h, λ h. (r, refl))

labelled_iff :
    (label : Text) (x : Option Text)
    → ((s : Text) × (labelled label x ≡ some s)) ↔ ((s : Text) × (x ≡ some s))
labelled_iff label none = (λ (s, e). none_elim e, λ (s, e). none_elim e)
labelled_iff label (some r) = (λ h. (r, refl), λ h. (label ++ r, refl))

shared_iff :
    (x y : MemoryRecord)
    → ((s : Text) × (first_of (shared_tags x y) ≡ some s))
      ↔ ((tag : Text) × Memᴰ tag x.tags × (contains tag y.tags ≡ true))
shared_iff x y = (
  λ (s, e).
      let (m, h) =
        (Mem_filter (λ tag. contains tag y.tags) x.tags s).0 (first-Mem (shared_tags x y) s e) in
      (s, m, h),
  λ (tag, m, h).
      Mem-first (shared_tags x y) tag
        ((Mem_filter (λ tag. contains tag y.tags) x.tags tag).1 (m, h)),
)
  where
    first-Mem : (l : List Text) (s : Text) → first_of l ≡ some s → Memᴰ s l
    first-Mem [] s e = none_elim e
    first-Mem (r ∷ l) s e = Memᴰ.head (sym (some_inj e))

    Mem-first : (l : List Text) (s : Text) → Memᴰ s l → (r : Text) × (first_of l ≡ some r)
    Mem-first [] s m = elim m [ ]
    Mem-first (r ∷ l) s m = (r, refl)

edge_reason_iff : (x y : MemoryRecord) → ((s : Text) × (edge_reason x y ≡ some s)) ↔ IsRelated x y
unfolding edge_reason
edge_reason_iff x y =
    let tags = labelled (units "shared tag: ") (first_of (shared_tags x y)) in
    let projects = labelled (units "same project: ") (same_id x.project_id y.project_id) in
    let tasks = labelled (units "same task: ") (same_id x.task_id y.task_id) in
    let tagged = labelled_iff (units "shared tag: ") (first_of (shared_tags x y)) in
    let project = labelled_iff (units "same project: ") (same_id x.project_id y.project_id) in
    let task = labelled_iff (units "same task: ") (same_id x.task_id y.task_id) in
    (
      λ h. elim ((or_else_iff tags (or_else projects tasks)).0 h) [
        | inl t ↦ inl ((shared_iff x y).0 (tagged.0 t))
        | inr more ↦ elim ((or_else_iff projects tasks).0 more) [
          | inl p ↦ inr (inl ((same_id_iff x.project_id y.project_id).0 (project.0 p)))
          | inr t ↦ inr (inr ((same_id_iff x.task_id y.task_id).0 (task.0 t)))
        ]
      ],
      λ h. (or_else_iff tags (or_else projects tasks)).1 (elim h [
        | inl t ↦ inl (tagged.1 ((shared_iff x y).1 t))
        | inr more ↦ inr (
            (or_else_iff projects tasks).1 (elim more [
              | inl p ↦ inl (project.1 ((same_id_iff x.project_id y.project_id).1 p))
              | inr t ↦ inr (task.1 ((same_id_iff x.task_id y.task_id).1 t))
            ]))
      ]),
    )

get_elem-lt {ℓ} :
    {A : Type ℓ} (xs : List A) (i : ℕ) (x : A) → get_elem? xs i ≡ some x → i < length xs
get_elem-lt [] i x e = none_elim e
get_elem-lt (y ∷ xs) zero x e = omega arith
get_elem-lt (y ∷ xs) (suc i) x e = omega (arith, get_elem-lt xs i x e)

-- Every edge of the graph joins two different records of the list, the first before the second,
-- that have a tag, or a project or a task that is not empty, in common. Every two records that
-- have one in common are joined so.
pub build_edges-IsRelated :
    (records : List MemoryRecord)
    → ((e : GraphEdge)
        → Memᴰ e (build_edges records)
        → (x y : MemoryRecord) × (e.a < e.b)
          × (e.b < length records)
          × (get_elem? records e.a ≡ some x)
          × (get_elem? records e.b ≡ some y)
          × IsRelated x y)
      × ((k l : ℕ) (x y : MemoryRecord)
          → k < l
          → get_elem? records k ≡ some x
          → get_elem? records l ≡ some y
          → IsRelated x y
          → (e : GraphEdge) × (e.a ≡ k) × (e.b ≡ l) × Memᴰ e (build_edges records))
unfolding build_edges
build_edges-IsRelated records = (
  λ e m.
      let (k, l, x, y, (lt, p, q, r, s, t)) = edges_from-Mem 0 records e m in
      let in_range = get_elem-lt records l y s in
      let at_a : k ≡ e.a = omega arith in
      let at_b : l ≡ e.b = omega arith in
      (
        x,
        y,
        omega arith,
        omega arith,
        rw at_a at r,
        rw at_b at s,
        (edge_reason_iff x y).0 (e.reason, t),
      ),
  λ k l x y lt r s h.
      let (reason, t) = (edge_reason_iff x y).1 h in
      let e : GraphEdge = record { a = k; b = l; reason = reason } in
      (e, refl, refl, Mem-edges_from 0 records e k l x y (lt, omega arith, omega arith, r, s, t)),
)
