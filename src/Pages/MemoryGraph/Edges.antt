-- ===== src/Pages/MemoryGraph/Edges.antt =====
-- The edges of the loops of frontend/src/components/memory/MemoryGraph.tsx.
use mathlib.Core.List.{Memᴰ}
use mathlib.Core.List.Memᴰ
use agent_os_test.Prelude.{
  ◌≡◌, refl, sym, ap, ◌∙◌, ◌↔◌, ◌⊎◌, inl, inr, ℕ, zero, suc, ◌+◌, ◌<◌, Option, none, some, List, [],
  ◌∷◌, Text, text_has_eq, get_elem?, Mem_append, some_inj, none_elim, arith,
}
use agent_os_test.Types.Memory.{MemoryRecord}
use agent_os_test.Pages.MemoryGraph.{GraphEdge, edge_reason, push_edge, edges_at, edges_from}

push_edge-Mem :
    (i j : ℕ) (why : Option Text) (edges : List GraphEdge) (e : GraphEdge)
    → Memᴰ e (push_edge i j why edges)
      ↔ (((e.a ≡ i) × (e.b ≡ j) × (why ≡ some e.reason)) ⊎ Memᴰ e edges)
push_edge-Mem i j none edges e =
    (λ m. inr m, λ h. elim h [ inl (p, q, r) ↦ none_elim r | inr m ↦ m ])
push_edge-Mem i j (some reason) edges e = (
  λ m. elim (Memᴰ.cases_cons m) [
    | inl same ↦ inl (
      ap (λ (f : GraphEdge). f.a) same,
      ap (λ (f : GraphEdge). f.b) same,
      ap some (sym (ap (λ (f : GraphEdge). f.reason) same)),
    )
    | inr later ↦ inr later
  ],
  λ h. elim h [
    | inl (p, q, r) ↦ Memᴰ.head (λ k. record { a = p k; b = q k; reason = some_inj (sym r) k })
    | inr m ↦ Memᴰ.tail m
  ],
)

edges_at-Mem :
    (i j : ℕ) (a : MemoryRecord) (rest : List MemoryRecord) (e : GraphEdge)
    → Memᴰ e (edges_at i a j rest)
    → (k : ℕ) × (y : MemoryRecord) × (e.a ≡ i)
      × (e.b ≡ k + j)
      × (get_elem? rest k ≡ some y)
      × (edge_reason a y ≡ some e.reason)
unfolding edges_at
edges_at-Mem i j a [] e m = elim m [ ]
edges_at-Mem i j a (b ∷ rest) e m =
    elim ((push_edge-Mem i j (edge_reason a b) (edges_at i a (suc j) rest) e).0 m) [
      | inl (p, q, r) ↦ (0, b, p, omega arith, refl, r)
      | inr later ↦
          let (k, y, p, q, r, s) = edges_at-Mem i (suc j) a rest e later in
          (suc k, y, p, omega arith, r, s)
    ]

Mem-edges_at :
    (i j : ℕ) (a : MemoryRecord) (rest : List MemoryRecord) (e : GraphEdge) (k : ℕ)
    (y : MemoryRecord)
    → e.a ≡ i
    → e.b ≡ k + j
    → get_elem? rest k ≡ some y
    → edge_reason a y ≡ some e.reason
    → Memᴰ e (edges_at i a j rest)
unfolding edges_at
Mem-edges_at i j a [] e k y p q r s = none_elim r
Mem-edges_at i j a (b ∷ rest) e zero y p q r s =
    (push_edge-Mem i j (edge_reason a b) (edges_at i a (suc j) rest) e).1
      (inl (p, omega arith, ap (edge_reason a) (some_inj r) ∙ s))
Mem-edges_at i j a (b ∷ rest) e (suc k) y p q r s =
    (push_edge-Mem i j (edge_reason a b) (edges_at i a (suc j) rest) e).1
      (inr (Mem-edges_at i (suc j) a rest e k y p (omega arith) r s))

-- The edge joins the records at two indices, the first before the second.
abbrev pub At : ℕ → List MemoryRecord → GraphEdge → ℕ → ℕ → MemoryRecord → MemoryRecord → Type 0
At i records e k l x y =
    (k < l)
    × (e.a ≡ k + i)
    × (e.b ≡ l + i)
    × (get_elem? records k ≡ some x)
    × (get_elem? records l ≡ some y)
    × (edge_reason x y ≡ some e.reason)

pub edges_from-Mem :
    (i : ℕ) (records : List MemoryRecord) (e : GraphEdge)
    → Memᴰ e (edges_from i records)
    → (k l : ℕ) × (x y : MemoryRecord) × At i records e k l x y
unfolding edges_from
edges_from-Mem i [] e m = elim m [ ]
edges_from-Mem i (a ∷ rest) e m =
    elim ((Mem_append (edges_at i a (suc i) rest) (edges_from (suc i) rest) e).1 m) [
      | inl here ↦
          let (k, y, p, q, r, s) = edges_at-Mem i (suc i) a rest e here in
          (0, suc k, a, y, (omega arith, omega arith, omega arith, refl, r, s))
      | inr later ↦
          let (k, l, x, y, (lt, p, q, r, s, t)) = edges_from-Mem (suc i) rest e later in
          (suc k, suc l, x, y, (omega arith, omega arith, omega arith, r, s, t))
    ]

pub Mem-edges_from :
    (i : ℕ) (records : List MemoryRecord) (e : GraphEdge) (k l : ℕ) (x y : MemoryRecord)
    → At i records e k l x y
    → Memᴰ e (edges_from i records)
unfolding edges_from
Mem-edges_from i [] e k l x y (lt, p, q, r, s, t) = none_elim r
Mem-edges_from i (a ∷ rest) e zero zero x y (lt, p, q, r, s, t) = absurd (omega arith)
Mem-edges_from i (a ∷ rest) e (suc k) zero x y (lt, p, q, r, s, t) = absurd (omega arith)
Mem-edges_from i (a ∷ rest) e zero (suc l) x y (lt, p, q, r, s, t) =
    (Mem_append (edges_at i a (suc i) rest) (edges_from (suc i) rest) e).0 (
      inl (
        Mem-edges_at i (suc i) a rest e l y (omega arith) (omega arith) s
          (ap (λ z. edge_reason z y) (some_inj r) ∙ t)))
Mem-edges_from i (a ∷ rest) e (suc k) (suc l) x y (lt, p, q, r, s, t) =
    (Mem_append (edges_at i a (suc i) rest) (edges_from (suc i) rest) e).0
      (inr (Mem-edges_from (suc i) rest e k l x y (omega arith, omega arith, omega arith, r, s, t)))
