-- ===== src/Workflow/Cycle/Stack.antt =====
-- The flag is set only where the nodes being visited close a cycle.
use mathlib.Core.Path.{subst}
use agent_os_test.Prelude.{
  ℕ, zero, suc, ◌≡◌, sym, ◌⊎◌, inl, inr, true, false, some, Option, List, [], ◌∷◌, ◌==◌, Text,
  text_has_eq, text_eq_iff, eq_refl, contains, some_inj, none_elim, map-eq-some, arith, Bool-cases,
  Option-cases,
}
use agent_os_test.Workflow.Cycle.{Deps, deps_of, Search, start, each, enter, leave, visit}
use agent_os_test.Workflow.Cycle.Order.{Runs, visit-Progress}

module _ (m : Deps) where
  -- `b` is one of the dependencies that the map gives for `a`.
  abbrev pub DependsOn : Text → Text → Type 0
  DependsOn a b = contains b (deps_of m a) ≡ true

  -- `a` needs `c`, over one dependency or more.
  pub data Needs : Text → Text → Type 0 where
    direct : {a b : Text} → DependsOn a b → Needs a b
    through : {a b c : Text} → DependsOn a b → Needs b c → Needs a c

  pub Needs-snoc : {a b c : Text} → Needs a b → DependsOn b c → Needs a c
  Needs-snoc (direct h) k = through h (direct k)
  Needs-snoc (through h p) k = through h (Needs-snoc p k)

  -- A node that needs itself.
  abbrev pub HasCycle : Type 0
  HasCycle = (n : Text) × Needs n n

  -- `visiting`, the latest node first: each depends on the one above it.
  abbrev IsStack : List Text → Type 0
  IsStack [] = Unit
  IsStack (a ∷ []) = Unit
  IsStack (b ∷ (a ∷ r)) = DependsOn a b × IsStack (a ∷ r)

  -- The node that a call is about to visit depends on nothing that is not below it.
  abbrev IsNext : Text → List Text → Type 0
  IsNext n [] = Unit
  IsNext n (a ∷ r) = DependsOn a n

  stack_cycle :
      (n a : Text) (r : List Text)
      → IsStack (a ∷ r)
      → contains n (a ∷ r) ≡ true
      → (n ≡ a) ⊎ Needs n a
  stack_cycle n a [] h c = elim (Bool-cases (n == a)) [
    | inl same ↦ inl ((text_eq_iff n a).0 same)
    | inr other ↦ let bad : false ≡ true = rw other at c in cc
  ]
  stack_cycle n b (a ∷ r) (h, k) c = elim (Bool-cases (n == b)) [
    | inl same ↦ inl ((text_eq_iff n b).0 same)
    | inr other ↦ elim (stack_cycle n a r k (rw other at c)) [
      | inl e ↦ inr (direct (rw e h))
      | inr p ↦ inr (Needs-snoc p h)
    ]
  ]

  closes : (n : Text) (v : List Text) → IsStack v → IsNext n v → contains n v ≡ true → HasCycle
  closes n [] s h c = cc
  closes n (a ∷ r) s h c = elim (stack_cycle n a r s c) [
    | inl e ↦ (n, direct (rw e (rw e at h)))
    | inr p ↦ (n, Needs-snoc p h)
  ]

  enter-IsStack :
      (n : Text) (s : Search)
      → contains n s.visiting ≡ false
      → IsStack s.visiting
      → IsNext n s.visiting
      → IsStack (enter n s).visiting × ((d : Text) → DependsOn n d → IsNext d (enter n s).visiting)
  unfolding enter
  enter-IsStack n s new k next = rw new (stacked s.visiting k next, λ d h. h)
    where
      stacked : (v : List Text) → IsStack v → IsNext n v → IsStack (n ∷ v)
      stacked [] h l = tt
      stacked (a ∷ r) h l = (l, h)

  enter-cycle : (n : Text) (s : Search) → (enter n s).cycle ≡ true → s.cycle ≡ true
  unfolding enter
  enter-cycle n s h = h

  -- A body that sets the flag only for a cycle.
  abbrev Sound : (Text → Search → Option Search) → Type 0
  Sound run =
      (n : Text) (s t : Search)
      → run n s ≡ some t
      → IsStack s.visiting
      → IsNext n s.visiting
      → t.cycle ≡ true
      → (s.cycle ≡ true) ⊎ HasCycle

  each-Sound :
      (run : Text → Search → Option Search)
      → Runs m run
      → Sound run
      → (ns : List Text) (s t : Search) → each run ns s ≡ some t
      → IsStack s.visiting
      → ((n : Text) → contains n ns ≡ true → IsNext n s.visiting)
      → t.cycle ≡ true
      → (s.cycle ≡ true) ⊎ HasCycle
  unfolding each
  each-Sound run ok sound [] s t e k next c = inl (rw (some_inj e) c)
  each-Sound run ok sound (n ∷ ns) s t e k next c = elim (Option-cases (run n s)) [
    | inl out ↦ none_elim (rw (out, each) at e)
    | inr (u, ran) ↦
        let (p, _) = ok n s u ran in
        let later =
          each-Sound run ok sound ns u t (rw (ran, each) at e) (rw p.same k)
            (λ d h. rw p.same (next d (ground arith))) c in
        elim later [
          | inl set ↦ sound n s u ran k (next n (rw (eq_refl n))) set
          | inr cycle ↦ inr cycle
        ]
  ]

  visit-Sound : (fuel : ℕ) → Sound (visit m fuel)
  unfolding visit leave
  visit-Sound zero n s t e k next c = none_elim e
  visit-Sound (suc fuel) n s t e k next c = elim (Bool-cases (contains n s.visiting)) [
    | inl again ↦ inr (closes n s.visiting k next again)
    | inr new ↦ elim (Bool-cases (contains n s.visited)) [
      | inl old ↦ inl (subst (λ u. u.cycle ≡ true) (sym (some_inj (rw (new, old) at e))) c)
      | inr fresh ↦
          let (u, ran, left) = map-eq-some (leave n) _ (rw (new, fresh) at e) in
          let (pushed, next') = enter-IsStack n s new k next in
          let inner =
            each-Sound (visit m fuel) (visit-Progress m fuel) (visit-Sound fuel) (deps_of m n)
              (enter n s) u ran pushed next' (subst (λ w. w.cycle ≡ true) (sym left) c) in
          elim inner [ inl set ↦ inl (enter-cycle n s set) | inr cycle ↦ inr cycle ]
    ]
  ]

  -- A search from the start over any nodes sets the flag for a cycle only.
  pub search_sound :
      (fuel : ℕ) (ns : List Text) (t : Search)
      → each (visit m fuel) ns start ≡ some t
      → t.cycle ≡ true
      → HasCycle
  unfolding start
  search_sound fuel ns t e c =
      elim (each-Sound (visit m fuel) (visit-Progress m fuel) (visit-Sound fuel) ns start t e tt
        (λ n h. tt) c) [ inl set ↦ cc | inr cycle ↦ cycle ]
