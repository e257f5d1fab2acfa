-- ===== src/Workflow/Validate/Graph.antt =====
-- The dependency graph of a list of steps, and the map that `validateWorkflowGraph` makes of it.
use mathlib.Core.List.{Memᴰ}
use agent_os_test.Prelude.{
  ◌≡◌, refl, sym, ◌↔◌, ◌⊎◌, ◌∙◌, inl, inr, true, false, some, List, [], ◌∷◌, map, ◌==◌, Text,
  text_has_eq, text_eq_iff, eq_refl, contains, Distinct, lookup, insert, map_of, lookup-insert,
  some_inj, none_elim, Bool-cases,
}
use agent_os_test.Types.Workflows.{WorkflowStep}
use agent_os_test.Workflow.Cycle.{Deps}
use agent_os_test.Workflow.Cycle.Stack.{DependsOn, Needs, direct, through, HasCycle}
use agent_os_test.Workflow.Cycle.Correct.{deps_of-lookup, key_of_DependsOn}
use agent_os_test.Workflow.Validate.{ids_of, deps_map}

-- A step named `a` lists `b` among its dependencies.
abbrev pub Lists : List WorkflowStep → Text → Text → Type 0
Lists steps a b = (s : WorkflowStep) × Memᴰ s steps × (s.id ≡ a) × (contains b s.depends_on ≡ true)

-- `a` depends on `c`, over one step or more.
pub data Leads (steps : List WorkflowStep) : Text → Text → Type 0 where
  one : {a b : Text} → Lists steps a b → Leads steps a b
  more : {a b c : Text} → Lists steps a b → Leads steps b c → Leads steps a c

-- Some step depends on itself, over one step or more.
abbrev pub IsCyclic : List WorkflowStep → Type 0
IsCyclic steps = (n : Text) × Leads steps n n

abbrev Entry : Type 0
Entry = Text × List Text

abbrev entries : List WorkflowStep → List Entry
entries steps = map (λ s. (s.id, s.depends_on)) steps

abbrev FromStep : List WorkflowStep → Text → List Text → Type 0
FromStep steps a ds = (s : WorkflowStep) × Memᴰ s steps × (s.id ≡ a) × (s.depends_on ≡ ds)

lookup-map_of :
    (steps : List WorkflowStep) (m : Deps) (a : Text) {ds : List Text}
    → lookup a (map_of m (entries steps)) ≡ some ds
    → FromStep steps a ds ⊎ (lookup a m ≡ some ds)
unfolding map_of
lookup-map_of [] m a h = inr h
lookup-map_of (s ∷ steps) m a h = elim (lookup-map_of steps (insert s.id s.depends_on m) a h) [
  | inl (t, mem, e, f) ↦ inl (t, Memᴰ.tail mem, e, f)
  | inr found ↦ elim (Bool-cases (a == s.id)) [
    | inl same ↦ inl (
      s,
      Memᴰ.head refl,
      sym ((text_eq_iff a s.id).0 same),
      some_inj (rw (lookup-insert a s.id s.depends_on m, same) at found),
    )
    | inr other ↦ inr (rw (lookup-insert a s.id s.depends_on m, other) at found)
  ]
]

lookup-map_of_absent :
    (steps : List WorkflowStep) (m : Deps) (a : Text)
    → contains a (ids_of steps) ≡ false
    → lookup a (map_of m (entries steps)) ≡ lookup a m
unfolding map_of
lookup-map_of_absent [] m a h = refl
lookup-map_of_absent (s ∷ steps) m a h = elim (Bool-cases (a == s.id)) [
  | inl same ↦ let bad : true ≡ false = rw same at h in cc
  | inr other ↦
      lookup-map_of_absent steps (insert s.id s.depends_on m) a (rw other at h)
      ∙ rw (lookup-insert a s.id s.depends_on m, other)
]

lookup-map_of_mem :
    (steps : List WorkflowStep) (m : Deps) (s : WorkflowStep)
    → Distinct (ids_of steps)
    → Memᴰ s steps
    → lookup s.id (map_of m (entries steps)) ≡ some s.depends_on
unfolding map_of
lookup-map_of_mem [] m s d mem = elim mem [ ]
lookup-map_of_mem (t ∷ steps) m s (new, d) (Memᴰ.head e) = rw e (
    lookup-map_of_absent steps (insert t.id t.depends_on m) t.id new
    ∙ rw (lookup-insert t.id t.id t.depends_on m, eq_refl t.id))
lookup-map_of_mem (t ∷ steps) m s (new, d) (Memᴰ.tail mem) =
    lookup-map_of_mem steps (insert t.id t.depends_on m) s d mem

-- The keys of the map are ids of steps.
pub key-contains :
    (steps : List WorkflowStep) (a : Text) (ds : List Text)
    → lookup a (deps_map steps) ≡ some ds
    → contains a (ids_of steps) ≡ true
unfolding deps_map lookup
key-contains steps a ds h = elim (Bool-cases (contains a (ids_of steps))) [
  | inl listed ↦ listed
  | inr absent ↦ none_elim (rw (lookup-map_of_absent steps [] a absent) at h)
]

DependsOn-Lists :
    (steps : List WorkflowStep) (a b : Text) → DependsOn (deps_map steps) a b → Lists steps a b
unfolding deps_map lookup
DependsOn-Lists steps a b h =
    let (ds, found, mem) = key_of_DependsOn (deps_map steps) a b h in
    elim (lookup-map_of steps [] a found) [
      | inl (s, listed, e, f) ↦ (s, listed, e, rw f mem)
      | inr out ↦ none_elim out
    ]

Lists-DependsOn :
    (steps : List WorkflowStep) (a b : Text)
    → Distinct (ids_of steps)
    → Lists steps a b
    → DependsOn (deps_map steps) a b
unfolding deps_map
Lists-DependsOn steps a b d (s, mem, e, h) =
    rw (← e) (rw (deps_of-lookup (deps_map steps) s.id (lookup-map_of_mem steps [] s d mem)) h)

Needs-Leads :
    (steps : List WorkflowStep) {a b : Text} → Needs (deps_map steps) a b → Leads steps a b
Needs-Leads steps (direct h) = one (DependsOn-Lists steps _ _ h)
Needs-Leads steps (through h p) = more (DependsOn-Lists steps _ _ h) (Needs-Leads steps p)

Leads-Needs :
    (steps : List WorkflowStep) {a b : Text}
    → Distinct (ids_of steps)
    → Leads steps a b
    → Needs (deps_map steps) a b
Leads-Needs steps d (one h) = direct (Lists-DependsOn steps _ _ d h)
Leads-Needs steps d (more h p) = through (Lists-DependsOn steps _ _ d h) (Leads-Needs steps d p)

-- With distinct ids the map has the cycles of the steps.
pub HasCycle_iff :
    (steps : List WorkflowStep)
    → Distinct (ids_of steps)
    → HasCycle (deps_map steps) ↔ IsCyclic steps
HasCycle_iff steps d = (λ (n, p). (n, Needs-Leads steps p), λ (n, p). (n, Leads-Needs steps d p))

pub HasCycle-IsCyclic : (steps : List WorkflowStep) → HasCycle (deps_map steps) → IsCyclic steps
HasCycle-IsCyclic steps (n, p) = (n, Needs-Leads steps p)
