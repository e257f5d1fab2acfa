-- ===== src/Pages/MemoryGraph.antt =====
-- The graph of the memories that a search found: frontend/src/components/memory/MemoryGraph.tsx.
pub mod Edges
pub mod Related
mod Tests
use agent_os_test.Prelude.{
  ℕ, suc, Bool, ◌&&◌, not, Option, none, some, List, [], ◌∷◌, ◌++◌, Text, text_has_eq, units, ◌==◌,
  contains, filter, take, is_empty, if◌then◌else◌,
}
use agent_os_test.Types.Memory.{MemoryRecord}

-- `MAX_NODES`
abbrev pub max_nodes : ℕ
max_nodes = 40

pub record GraphEdge : Type 0 where
  pub a : ℕ
  pub b : ℕ
  pub reason : Text

-- `a.id && a.id === b.id`: the id, where both have it and it is not empty.
abbrev pub same_id : Option Text → Option Text → Option Text
same_id none y = none
same_id (some s) none = none
same_id (some s) (some t) = if not (is_empty s) && s == t then some s else none

-- `sharedTags`
abbrev pub shared_tags : MemoryRecord → MemoryRecord → List Text
shared_tags a b = filter (λ tag. contains tag b.tags) a.tags

abbrev pub labelled : Text → Option Text → Option Text
labelled label none = none
labelled label (some s) = some (label ++ s)

abbrev pub first_of : List Text → Option Text
first_of [] = none
first_of (s ∷ more) = some s

abbrev pub or_else : Option Text → Option Text → Option Text
or_else none y = y
or_else (some s) y = some s

-- The body of the loops: why the two records are joined, if they are.
unfoldable pub edge_reason : MemoryRecord → MemoryRecord → Option Text
edge_reason a b = or_else (labelled (units "shared tag: ") (first_of (shared_tags a b))) (
    or_else (labelled (units "same project: ") (same_id a.project_id b.project_id))
      (labelled (units "same task: ") (same_id a.task_id b.task_id)))

abbrev pub push_edge : ℕ → ℕ → Option Text → List GraphEdge → List GraphEdge
push_edge i j none edges = edges
push_edge i j (some reason) edges = record { a = i; b = j; reason = reason } ∷ edges

-- The inner loop, from the record at `j` on.
unfoldable pub edges_at : ℕ → MemoryRecord → ℕ → List MemoryRecord → List GraphEdge
unfolding edge_reason
edges_at i a j [] = []
edges_at i a j (b ∷ rest) = push_edge i j (edge_reason a b) (edges_at i a (suc j) rest)

-- The outer loop, from the record at `i` on.
unfoldable pub edges_from : ℕ → List MemoryRecord → List GraphEdge
unfolding edges_at
edges_from i [] = []
edges_from i (a ∷ rest) = edges_at i a (suc i) rest ++ edges_from (suc i) rest

-- `buildEdges`
unfoldable pub build_edges : List MemoryRecord → List GraphEdge
unfolding edges_from
build_edges records = edges_from 0 records

-- `shown`
abbrev pub shown : List MemoryRecord → List MemoryRecord
shown records = take max_nodes records
