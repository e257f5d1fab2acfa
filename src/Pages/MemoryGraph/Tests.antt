-- ===== src/Pages/MemoryGraph/Tests.antt =====
-- The theorem on the graph, at two records of a project.
use mathlib.Core.List.{Memᴰ}
use agent_os_test.Prelude.{◌≡◌, ◌<◌, ℕ, none, some, List, [], ◌∷◌, Text, units, length, get_elem?}
use agent_os_test.Types.Memory.{project, MemoryRecord}
use agent_os_test.Pages.MemoryGraph.{GraphEdge, build_edges}
use agent_os_test.Pages.MemoryGraph.Related.{IsRelated, build_edges-IsRelated}

abbrev note : Text → MemoryRecord
note id = record {
  id = id;
  scope = project;
  key = id;
  content = [];
  project_id = some (units "p");
  task_id = none;
  session_id = none;
  agent = none;
  tags = [];
  metadata = [];
  importance = units "1";
  created_at = units "now";
  score = none;
  semantic_score = none;
  lexical_score = none;
}

abbrev records : List MemoryRecord
records = note (units "a") ∷ note (units "b") ∷ []

build_edges-IsRelated_example :
    ((e : GraphEdge)
      → Memᴰ e (build_edges records)
      → (x y : MemoryRecord) × (e.a < e.b)
        × (e.b < length records)
        × (get_elem? records e.a ≡ some x)
        × (get_elem? records e.b ≡ some y)
        × IsRelated x y)
    × ((k l : ℕ) (x y : MemoryRecord)
        → k < l
        → get_elem? records k ≡ some x
        → get_elem? records l ≡ some y
        → IsRelated x y
        → (e : GraphEdge) × (e.a ≡ k) × (e.b ≡ l) × Memᴰ e (build_edges records))
build_edges-IsRelated_example = build_edges-IsRelated records
