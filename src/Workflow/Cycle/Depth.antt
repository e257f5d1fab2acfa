-- ===== src/Workflow/Cycle/Depth.antt =====
-- The calls of `visit` nest no deeper than the map has keys, so the search ends.

use agent_os_test.Prelude.{
  ℕ, zero, suc, ◌+◌, ◌≤◌, ◌<◌, ◌≡◌, refl, inl, inr, true, false, some, Option, List, [], ◌∷◌, ◌==◌,
  Text, text_has_eq, text_eq_iff, contains, lookup, if◌then◌else◌, length, arith, Bool-cases,
  Option-cases,
}
use agent_os_test.Workflow.Cycle.{Deps, deps_of, Search, each, enter, leave, visit}
use agent_os_test.Workflow.Cycle.Order.{Runs, visit-Progress}

-- The keys that are not being visited.
abbrev pub pending : List Text → Deps → ℕ
pending v [] = 0
pending v ((k, _) ∷ m) = (if contains k v then 0 else 1) + pending v m

pending-le-length : (v : List Text) (m : Deps) → pending v m ≤ length m
pending-le-length v [] = omega arith
pending-le-length v ((k, ds) ∷ m) = ground (arith, pending-le-length v m)

pending-cons-le : (n : Text) (v : List Text) (m : Deps) → pending (n ∷ v) m ≤ pending v m
pending-cons-le n v [] = omega arith
pending-cons-le n v ((k, ds) ∷ m) = ground (arith, pending-cons-le n v m)

pending-cons-lt :
    (n : Text) (v : List Text) (m : Deps) {ds : List Text}
    → lookup n m ≡ some ds
    → contains n v ≡ false
    → pending (n ∷ v) m < pending v m
unfolding lookup
pending-cons-lt n v [] h new = cc
pending-cons-lt n v ((k, es) ∷ m) h new = elim (Bool-cases (n == k)) [
  | inl same ↦
      let p : n ≡ k = (text_eq_iff n k).0 same in
      let old : contains k v ≡ false = rw p at new in
      let again : (k == n) ≡ true = (text_eq_iff k n).1 (cc p) in
      ground (arith, pending-cons-le n v m)
  | inr other ↦ ground (arith, pending-cons-lt n v m (rw other at h) new)
]

abbrev Ends : Option Search → Type 0
Ends o = (t : Search) × (o ≡ some t)

module _ (m : Deps) where
  each-Ends :
      (fuel : ℕ) (run : Text → Search → Option Search)
      → Runs m run
      → ((n : Text) (s : Search) → pending s.visiting m < fuel → Ends (run n s))
      → (ns : List Text) (s : Search) → pending s.visiting m < fuel
      → Ends (each run ns s)
  unfolding each
  each-Ends fuel run ok ends [] s h = (s, refl)
  each-Ends fuel run ok ends (n ∷ ns) s h =
      let (t, ran) = ends n s h in
      let (p, _) = ok n s t ran in
      let (u, rest) = each-Ends fuel run ok ends ns t (rw p.same h) in (u, rw (ran, each) rest)

  -- The dependencies of a node that is not being visited.
  inner-Ends :
      (fuel : ℕ) (run : Text → Search → Option Search)
      → Runs m run
      → ((n : Text) (s : Search) → pending s.visiting m < fuel → Ends (run n s))
      → (n : Text) (s : Search) → contains n s.visiting ≡ false
      → pending s.visiting m < suc fuel
      → Ends (each run (deps_of m n) (enter n s))
  unfolding each deps_of enter
  inner-Ends fuel run ok ends n s new h = elim (Option-cases (lookup n m)) [
    | inl leaf ↦
        let none_left : deps_of m n ≡ [] = rw (leaf, deps_of) in rw none_left (enter n s, refl)
    | inr (ds, found) ↦
        let some_left : deps_of m n ≡ ds = rw (found, deps_of) in
        rw some_left (
          each-Ends fuel run ok ends ds (enter n s)
            (rw new (omega (arith, pending-cons-lt n s.visiting m found new))))
  ]

  visit-Ends :
      (fuel : ℕ) (n : Text) (s : Search) → pending s.visiting m < fuel → Ends (visit m fuel n s)
  unfolding visit
  visit-Ends zero n s h = elim h [ ]
  visit-Ends (suc fuel) n s h = elim (Bool-cases (contains n s.visiting)) [
    | inl again ↦ (record s { cycle = true }, rw again)
    | inr new ↦ elim (Bool-cases (contains n s.visited)) [
      | inl old ↦ (s, rw (new, old))
      | inr fresh ↦
          let (u, ran) =
            inner-Ends fuel (visit m fuel) (visit-Progress m fuel) (visit-Ends fuel) n s new h in
          (leave n u, rw (new, fresh) (rw ran))
    ]
  ]

  -- One more unit of fuel than the map has keys is enough for a loop over any nodes.
  pub search_ends :
      (ns : List Text) (s : Search) → (t : Search) × (each (visit m (suc (length m))) ns s ≡ some t)
  search_ends ns s =
      each-Ends (suc (length m)) (visit m (suc (length m))) (visit-Progress m (suc (length m)))
        (visit-Ends (suc (length m))) ns s (omega (arith, pending-le-length s.visiting m))
