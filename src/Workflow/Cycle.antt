-- ===== src/Workflow/Cycle.antt =====
-- The depth-first search of `validateWorkflowGraph`: frontend/src/lib/workflow-validate.ts.
pub mod Depth
pub mod Order
pub mod Stack
pub mod Correct
use mathlib.Core.Option
use agent_os_test.Prelude.{
  ℕ, zero, suc, Bool, true, false, Option, none, some, List, [], ◌∷◌, Text, if◌then◌else◌, contains,
  set_add, set_delete, lookup, text_has_eq,
}

-- The map `deps`.
abbrev pub Deps : Type 0
Deps = List (Text × List Text)

-- `deps.get(node) ?? []`
pub deps_of : Deps → Text → List Text
unfolding lookup
deps_of m node = elim (lookup node m) [ none ↦ [] | some ds ↦ ds ]

-- The sets `visiting` and `visited` and the flag `cycle`.
pub record Search : Type 0 where
  pub visiting : List Text
  pub visited : List Text
  pub cycle : Bool

pub start : Search
start = record { visiting = []; visited = []; cycle = false }

-- `for (const n of nodes) run(n)`, where `none` means that the fuel ran out.
pub each : (Text → Search → Option Search) → List Text → Search → Option Search
each run [] s = some s
each run (n ∷ ns) s = elim (run n s) [ none ↦ none | some t ↦ each run ns t ]

pub enter : Text → Search → Search
unfolding set_add
enter node s = record s { visiting = set_add node s.visiting }

pub leave : Text → Search → Search
unfolding set_add set_delete
leave node s = record s { visiting = set_delete node s.visiting; visited = set_add node s.visited }

-- `visit`. The fuel bounds the depth of the calls.
pub visit : Deps → ℕ → Text → Search → Option Search
visit m zero node s = none
visit m (suc fuel) node s =
    let inner = each (visit m fuel) (deps_of m node) (enter node s) in
    if contains node s.visiting
    then some (record s { cycle = true })
    else if contains node s.visited
    then some s
    else Option.map (leave node) inner

-- All that a run of the search computes with.
unfoldable pub search_runs : Unit {0}
unfolding visit each enter leave deps_of start
search_runs = tt
