-- ===== src/Workflow/Cycle/Order.antt =====
-- Without a cycle, the visited nodes stand behind their dependencies.
use mathlib.Core.Path.{subst}
use mathlib.Core.Bool.{or-true}
use agent_os_test.Prelude.{
  zero, suc, ℕ, ◌≡◌, refl, inl, inr, true, false, some, Option, List, [], ◌∷◌, Text, text_has_eq,
  contains, set_add, set_delete-set_add, contains-set_add, ◌==◌, text_eq_iff, eq_refl, some_inj,
  none_elim, map-eq-some, Bool-cases, Option-cases,
}
use agent_os_test.Workflow.Cycle.{Deps, deps_of, Search, each, enter, leave, visit}

module _ (m : Deps) where
  -- The latest node is first, and its dependencies are further down.
  abbrev pub Topo : List Text → Type 0
  Topo [] = Unit
  Topo (v ∷ vs) = ((d : Text) → contains d (deps_of m v) ≡ true → contains d vs ≡ true) × Topo vs

  Topo-set_add :
      (v : Text) (vs : List Text)
      → ((d : Text) → contains d (deps_of m v) ≡ true → contains d vs ≡ true)
      → Topo vs
      → Topo (set_add v vs)
  unfolding set_add
  Topo-set_add v vs h o = elim (Bool-cases (contains v vs)) [
    | inl old ↦ rw old o
    | inr new ↦ rw new (h, o)
  ]

  -- What one run of a loop body, or a whole loop, does to the search.
  pub record Progress (s t : Search) : Type 0 where
    pub same : t.visiting ≡ s.visiting
    pub grows : (x : Text) → contains x s.visited ≡ true → contains x t.visited ≡ true
    pub latched : t.cycle ≡ false → s.cycle ≡ false
    pub ordered : t.cycle ≡ false → Topo s.visited → Topo t.visited

  Progress-refl : (s : Search) → Progress s s
  Progress-refl s = record { same = refl; grows = λ x h. h; latched = λ h. h; ordered = λ _ h. h }

  Progress-trans : {s t u : Search} → Progress s t → Progress t u → Progress s u
  Progress-trans p q = record {
    same = cc (p.same, q.same);
    grows = λ x h. q.grows x (p.grows x h);
    latched = λ h. p.latched (q.latched h);
    ordered = λ h o. q.ordered h (p.ordered (q.latched h) o);
  }

  -- A body that makes progress and ends with its node visited, unless there is a cycle.
  abbrev pub Runs : (Text → Search → Option Search) → Type 0
  Runs run =
      (n : Text) (s t : Search)
      → run n s ≡ some t
      → Progress s t × (t.cycle ≡ false → contains n t.visited ≡ true)

  abbrev Visited : List Text → Search → Type 0
  Visited ns t = (d : Text) → contains d ns ≡ true → contains d t.visited ≡ true

  pub each-Progress :
      (run : Text → Search → Option Search)
      → Runs run
      → (ns : List Text) (s t : Search) → each run ns s ≡ some t
      → Progress s t × (t.cycle ≡ false → Visited ns t)
  unfolding each
  each-Progress run ok [] s t e =
      subst (λ u. Progress s u × (u.cycle ≡ false → Visited [] u)) (some_inj e)
        (Progress-refl s, λ _ d h. cc)
  each-Progress run ok (n ∷ ns) s t e = elim (Option-cases (run n s)) [
    | inl out ↦ none_elim (rw (out, each) at e)
    | inr (u, ran) ↦
        let (p, seen) = ok n s u ran in
        let (q, rest) = each-Progress run ok ns u t (rw (ran, each) at e) in
        (
          Progress-trans p q,
          λ h d mem. elim (Bool-cases (d == n)) [
            | inl same ↦ rw ((text_eq_iff d n).0 same) (q.grows n (seen (q.latched h)))
            | inr other ↦ rest h d (rw other at mem)
          ],
        )
  ]

  -- The search behind a node whose dependencies have been visited.
  leave-Progress :
      (n : Text) (s u : Search)
      → contains n s.visiting ≡ false
      → Progress (enter n s) u
      → (u.cycle ≡ false → Visited (deps_of m n) u)
      → Progress s (leave n u) × (u.cycle ≡ false → contains n (leave n u).visited ≡ true)
  unfolding enter leave
  leave-Progress n s u new p all = (
    record {
      same = rw p.same (set_delete-set_add n s.visiting new);
      grows = λ x h. rw (contains-set_add x n u.visited) (rw (p.grows x h) (or-true _));
      latched = p.latched;
      ordered = λ h o. Topo-set_add n u.visited (all h) (p.ordered h o);
    },
    λ h. rw (contains-set_add n n u.visited) (rw (eq_refl n)),
  )

  pub visit-Progress : (fuel : ℕ) → Runs (visit m fuel)
  unfolding visit leave
  visit-Progress zero n s t e = none_elim e
  visit-Progress (suc fuel) n s t e = elim (Bool-cases (contains n s.visiting)) [
    | inl again ↦
        subst (λ u. Progress s u × (u.cycle ≡ false → contains n u.visited ≡ true))
          (some_inj (rw again at e))
          (record { same = refl; grows = λ x h. h; latched = λ h. cc; ordered = λ h. cc }, λ h. cc)
    | inr new ↦ elim (Bool-cases (contains n s.visited)) [
      | inl old ↦
          subst (λ u. Progress s u × (u.cycle ≡ false → contains n u.visited ≡ true))
            (some_inj (rw (new, old) at e)) (Progress-refl s, λ h. old)
      | inr fresh ↦
          let (u, ran, left) = map-eq-some (leave n) _ (rw (new, fresh) at e) in
          let (p, all) =
            each-Progress (visit m fuel) (visit-Progress fuel) (deps_of m n) (enter n s) u ran in
          subst (λ w. Progress s w × (w.cycle ≡ false → contains n w.visited ≡ true)) left
            (leave-Progress n s u new p all)
    ]
  ]
