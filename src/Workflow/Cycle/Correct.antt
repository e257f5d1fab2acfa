-- ===== src/Workflow/Cycle/Correct.antt =====
-- The flag is set exactly if some node needs itself.
use mathlib.Core.WellFounded.{Acc}
use agent_os_test.Prelude.{
  suc, ◌≡◌, ◌↔◌, inl, inr, true, none, some, List, [], ◌∷◌, ◌==◌, Text, text_has_eq, text_eq_iff,
  contains, length, lookup, Bool-cases, Option-cases,
}
use agent_os_test.Workflow.Cycle.{Deps, deps_of, Search, start, each, visit}
use agent_os_test.Workflow.Cycle.Order.{Topo, each-Progress, visit-Progress}
use agent_os_test.Workflow.Cycle.Depth.{search_ends}
use agent_os_test.Workflow.Cycle.Stack.{
  DependsOn, Needs, direct, through, Needs-snoc, HasCycle, search_sound,
}

module _ (m : Deps) where
  -- The dependencies of a node, of each of those, and so on, come to an end.
  abbrev pub Settles : Text → Type 0
  Settles n = Acc (λ b a. DependsOn m a b) n

  Topo-Settles : (vs : List Text) (n : Text) → Topo m vs → contains n vs ≡ true → Settles n
  Topo-Settles [] n o h = cc
  Topo-Settles (v ∷ vs) n (below, o) h = elim (Bool-cases (n == v)) [
    | inl same ↦
        rw ((text_eq_iff n v).0 same) (Acc.intro v (λ d k. Topo-Settles vs d o (below d k)))
    | inr other ↦ Topo-Settles vs n o (rw other at h)
  ]

  no_cycle : (n : Text) → Settles n → ¬ Needs m n n
  no_cycle n (Acc.intro _ smaller) (direct h) = no_cycle n (smaller n h) (direct h)
  no_cycle n (Acc.intro _ smaller) (through {b} h p) = no_cycle b (smaller b h) (Needs-snoc m p h)

  no_dependency : (a b : Text) → lookup a m ≡ none → ¬ DependsOn m a b
  unfolding deps_of
  no_dependency a b leaf h =
      let empty : deps_of m a ≡ [] = rw (leaf, deps_of) in
      let bad : contains b [] ≡ true = rw empty at h in cc

  pub deps_of-lookup : (a : Text) {ds : List Text} → lookup a m ≡ some ds → deps_of m a ≡ ds
  unfolding deps_of
  deps_of-lookup a found = rw (found, deps_of)

  -- A node with a dependency is a key of the map.
  pub key_of_DependsOn :
      (a b : Text)
      → DependsOn m a b
      → (ds : List Text) × (lookup a m ≡ some ds) × (contains b ds ≡ true)
  key_of_DependsOn a b h = elim (Option-cases (lookup a m)) [
    | inl leaf ↦ absurd (no_dependency a b leaf h)
    | inr (ds, found) ↦ (ds, found, rw (deps_of-lookup a found) at h)
  ]

  -- Every node that is a key, and so every node on a cycle, is visited by a search over the keys.
  Needs-start : {a c : Text} → Needs m a c → (b : Text) × DependsOn m a b
  Needs-start (direct {b} h) = (b, h)
  Needs-start (through {b} h p) = (b, h)

  -- A search over nodes that include the keys ends, and its flag says whether there is a cycle.
  pub search_correct :
      (ns : List Text)
      → ((a : Text) (ds : List Text) → lookup a m ≡ some ds → contains a ns ≡ true)
      → (t : Search) × (each (visit m (suc (length m))) ns start ≡ some t)
        × ((t.cycle ≡ true) ↔ HasCycle m)
  search_correct ns keys =
      let (t, ran) = search_ends m ns start in
      let (p, all) =
        each-Progress m (visit m (suc (length m))) (visit-Progress m (suc (length m))) ns start t
          ran in
      (
        t,
        ran,
        (
          search_sound m (suc (length m)) ns t ran,
          λ (n, p'). elim (Bool-cases t.cycle) [
            | inl set ↦ set
            | inr clear ↦
                let (b, h) = Needs-start p' in
                let (ds, found, _) = key_of_DependsOn n b h in
                absurd (
                  no_cycle n
                    (Topo-Settles t.visited n (p.ordered clear start_Topo)
                      (all clear n (keys n ds found)))
                    p')
          ],
        ),
      )
    where
      start_Topo : Topo m start.visited
      start_Topo = unfold start in tt
