-- ===== src/Prelude/Sets.antt =====
-- `Set` of strings: the members, each listed once. The order of the list is not observed.
use mathlib.Core.Path.{◌≡◌, refl}
use Prim.Native.Nat.{◌≤◌}
use mathlib.Core.Logic.{◌↔◌, inl, inr}
use mathlib.Core.Bool.{◌||◌, false, not}
use mathlib.Core.List.{List, [], ◌∷◌}
use native.Mathlib.Omega.{arith}
use agent_os_test.Prelude.Tests.{if◌then◌else◌, StrictEq, ◌==◌, Bool-cases}
use agent_os_test.Prelude.Lists.{length, contains, filter, eq_refl}

module _ {ℓ} {A : Type ℓ} ⦃e : StrictEq A⦄ where
  -- `add`
  unfoldable pub set_add : A → List A → List A
  set_add a s = if contains a s then s else a ∷ s

  -- `delete`
  unfoldable pub set_delete : A → List A → List A
  set_delete a s = filter (λ x. not (a == x)) s

  -- `new Set(xs)`
  unfoldable pub set_of : List A → List A
  unfolding set_add
  set_of [] = []
  set_of (x ∷ xs) = set_add x (set_of xs)

  pub contains-set_of : (a : A) (xs : List A) → contains a (set_of xs) ≡ contains a xs
  unfolding set_of
  contains-set_of a [] = refl
  contains-set_of a (x ∷ xs) = elim (Bool-cases (contains x (set_of xs))) [
    | inl old ↦ elim (Bool-cases (a == x)) [
      | inl same ↦ let p : a ≡ x = (e.is_same_iff a x).0 same in rw (old, same) (rw p old)
      | inr other ↦ rw (old, other) (contains-set_of a xs)
    ]
    | inr new ↦ rw new (rw (contains-set_of a xs))
  ]

  pub set_delete_absent : (a : A) (s : List A) → contains a s ≡ false → set_delete a s ≡ s
  unfolding set_delete
  set_delete_absent a [] h = refl
  set_delete_absent a (x ∷ s) h = ground (arith, set_delete_absent a s)

  pub contains-set_add :
      (x a : A) (s : List A) → contains x (set_add a s) ≡ (x == a || contains x s)
  unfolding set_add
  contains-set_add x a s = elim (Bool-cases (contains a s)) [
    | inl old ↦ elim (Bool-cases (x == a)) [
      | inl same ↦ let p : x ≡ a = (e.is_same_iff x a).0 same in rw (old, same) (rw p old)
      | inr other ↦ rw (old, other)
    ]
    | inr new ↦ rw new
  ]

  pub set_delete-set_add :
      (a : A) (s : List A) → contains a s ≡ false → set_delete a (set_add a s) ≡ s
  unfolding set_add set_delete
  set_delete-set_add a s h = rw (h, eq_refl a) (set_delete_absent a s h)

  -- No member twice.
  abbrev pub Distinct : List A → Type 0
  Distinct [] = Unit
  Distinct (x ∷ xs) = (contains x xs ≡ false) × Distinct xs

  pub length-set_of-le : (xs : List A) → length (set_of xs) ≤ length xs
  unfolding set_of
  length-set_of-le [] = omega arith
  length-set_of-le (x ∷ xs) = ground (arith, length-set_of-le xs)

  -- A list is as long as its set exactly if it has no member twice.
  pub length-set_of_iff : (xs : List A) → (length xs ≡ length (set_of xs)) ↔ Distinct xs
  unfolding set_of
  length-set_of_iff [] = (λ _. tt, λ _. refl)
  length-set_of_iff (x ∷ xs) =
      ground (arith, length-set_of_iff xs, length-set_of-le xs, contains-set_of x xs)
