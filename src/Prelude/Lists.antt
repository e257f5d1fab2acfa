-- ===== src/Prelude/Lists.antt =====
-- Lists measured by native numbers, and the array methods that the program uses.
use Prim.Native.Nat.{ℕ, zero, suc, ◌+◌, ◌≤◌, ◌<◌, min}
use mathlib.Core.Option.{Option, none, some}
use mathlib.Core.Path.{◌≡◌, refl, sym, ap, ◌∙◌}
use mathlib.Core.Bool.{Bool, true, false, ◌&&◌, ◌||◌}
use mathlib.Core.List.{List, [], ◌∷◌, ◌++◌, Memᴰ}
use mathlib.Core.List.Memᴰ
use mathlib.Core.Logic.{◌↔◌, ◌⊎◌, inl, inr}
use native.Mathlib.Omega.{arith}
use agent_os_test.Prelude.Tests.{
  if◌then◌else◌, StrictEq, ◌==◌, And-cases, Bool-cases, some_inj, none_elim,
}

module _ {ℓ} {A : Type ℓ} where
  abbrev pub length : List A → ℕ
  length [] = 0
  length (x ∷ xs) = suc (length xs)

  -- `slice(0, n)`
  abbrev pub take : ℕ → List A → List A
  take zero xs = []
  take (suc n) [] = []
  take (suc n) (x ∷ xs) = x ∷ take n xs

  abbrev pub filter : (A → Bool) → List A → List A
  filter p [] = []
  filter p (x ∷ xs) = if p x then x ∷ filter p xs else filter p xs

  abbrev pub is_empty : List A → Bool
  is_empty [] = true
  is_empty (x ∷ xs) = false

  -- `every`
  abbrev pub every : (A → Bool) → List A → Bool
  every p [] = true
  every p (x ∷ xs) = p x && every p xs

  pub every-Mem : (p : A → Bool) (xs : List A) (x : A) → every p xs ≡ true → Memᴰ x xs → p x ≡ true
  every-Mem p [] x h m = elim m [ ]
  every-Mem p (y ∷ ys) x h m =
      let (here, rest) = And-cases (p y) (every p ys) h in
      elim (Memᴰ.cases_cons m) [ inl now ↦ rw now here | inr later ↦ every-Mem p ys x rest later ]

  pub Mem_filter :
      (p : A → Bool) (xs : List A) (x : A) → Memᴰ x (filter p xs) ↔ (Memᴰ x xs × (p x ≡ true))
  Mem_filter p [] x = (λ m. elim m [ ], λ (m, e). m)
  Mem_filter p (y ∷ xs) x = elim (Bool-cases (p y)) [
    | inl kept ↦ rw kept (
      λ m. elim (Memᴰ.cases_cons m) [
        | inl e ↦ (Memᴰ.head e, rw e kept)
        | inr later ↦ let (n, f) = (Mem_filter p xs x).0 later in (Memᴰ.tail n, f)
      ],
      λ (m, f). elim (Memᴰ.cases_cons m) [
        | inl e ↦ Memᴰ.head e
        | inr later ↦ Memᴰ.tail ((Mem_filter p xs x).1 (later, f))
      ],
    )
    | inr dropped ↦ rw dropped (
      λ m. let (n, f) = (Mem_filter p xs x).0 m in (Memᴰ.tail n, f),
      λ (m, f). elim (Memᴰ.cases_cons m) [
        | inl e ↦ let bad : true ≡ false = sym f ∙ ap p e ∙ dropped in cc
        | inr later ↦ (Mem_filter p xs x).1 (later, f)
      ],
    )
  ]

  pub Mem_append : (xs ys : List A) (x : A) → (Memᴰ x xs ⊎ Memᴰ x ys) ↔ Memᴰ x (xs ++ ys)
  Mem_append [] ys x = (λ h. elim h [ inl m ↦ elim m [ ] | inr m ↦ m ], λ m. inr m)
  Mem_append (z ∷ xs) ys x = (
    λ h. elim h [
      | inl m ↦ elim (Memᴰ.cases_cons m) [
        | inl e ↦ Memᴰ.head e
        | inr later ↦ Memᴰ.tail ((Mem_append xs ys x).0 (inl later))
      ]
      | inr m ↦ Memᴰ.tail ((Mem_append xs ys x).0 (inr m))
    ],
    λ m. elim (Memᴰ.cases_cons m) [
      | inl e ↦ inl (Memᴰ.head e)
      | inr later ↦ elim ((Mem_append xs ys x).1 later) [
        | inl left ↦ inl (Memᴰ.tail left)
        | inr right ↦ inr right
      ]
    ],
  )

  pub Mem_one : (x y : A) → Memᴰ x (y ∷ []) → x ≡ y
  Mem_one x y m = elim (Memᴰ.cases_cons m) [ inl e ↦ e | inr later ↦ elim later [ ] ]

  pub none_Mem : (xs : List A) → ((x : A) → Memᴰ x xs → ⊥) → xs ≡ []
  none_Mem [] h = refl
  none_Mem (x ∷ xs) h = absurd (h x (Memᴰ.head refl))

  -- A predicate of every element, as a tuple.
  abbrev pub All {κ} : (A → Type κ) → List A → Type κ
  All P [] = Unit
  All P (x ∷ xs) = P x × All P xs

  pub length-append : (xs ys : List A) → length (xs ++ ys) ≡ length xs + length ys
  length-append [] ys = omega arith
  length-append (x ∷ xs) ys = omega (arith, length-append xs ys)

  pub length-take : (n : ℕ) (xs : List A) → length (take n xs) ≡ min n (length xs)
  length-take zero xs = omega arith
  length-take (suc n) [] = omega arith
  length-take (suc n) (x ∷ xs) = omega (arith, length-take n xs)

  pub length-filter-le : (p : A → Bool) (xs : List A) → length (filter p xs) ≤ length xs
  length-filter-le p [] = omega arith
  length-filter-le p (x ∷ xs) = ground (arith, length-filter-le p xs)

  pub filter-append :
      (p : A → Bool) (xs ys : List A) → filter p (xs ++ ys) ≡ filter p xs ++ filter p ys
  filter-append p [] ys = refl
  filter-append p (x ∷ xs) ys = ground (arith, filter-append p xs ys)

  pub All-append {κ} : (P : A → Type κ) (xs ys : List A) → All P xs → All P ys → All P (xs ++ ys)
  All-append P [] ys h k = k
  All-append P (x ∷ xs) ys (p, h) k = (p, All-append P xs ys h k)

  pub All-take {κ} : (P : A → Type κ) (n : ℕ) (xs : List A) → All P xs → All P (take n xs)
  All-take P zero xs h = tt
  All-take P (suc n) [] h = tt
  All-take P (suc n) (x ∷ xs) (p, h) = (p, All-take P n xs h)

-- `includes` of an array, by `===`.
module _ {ℓ} {A : Type ℓ} ⦃e : StrictEq A⦄ where
  abbrev pub contains : A → List A → Bool
  contains a [] = false
  contains a (x ∷ xs) = a == x || contains a xs

  pub contains-append :
      (a : A) (xs ys : List A) → contains a (xs ++ ys) ≡ (contains a xs || contains a ys)
  contains-append a [] ys = refl
  contains-append a (x ∷ xs) ys = ground (arith, contains-append a xs ys)

  pub eq_refl : (a : A) → (a == a) ≡ true
  eq_refl a = (e.is_same_iff a a).1 refl

-- `xs[i]`
abbrev pub get_elem? {ℓ} : {A : Type ℓ} → List A → ℕ → Option A
get_elem? [] i = none
get_elem? (x ∷ xs) zero = some x
get_elem? (x ∷ xs) (suc i) = get_elem? xs i

pub get_elem-some {ℓ} :
    {A : Type ℓ} (xs : List A) (i : ℕ)
    → i < length xs
    → (x : A) × (get_elem? xs i ≡ some x) × Memᴰ x xs
get_elem-some [] i h = absurd (omega arith)
get_elem-some (x ∷ xs) zero h = (x, refl, Memᴰ.head refl)
get_elem-some (x ∷ xs) (suc i) h =
    let (y, e, m) = get_elem-some xs i (omega arith) in (y, e, Memᴰ.tail m)

pub get_elem-Mem {ℓ} :
    {A : Type ℓ} (xs : List A) (i : ℕ) (x : A) → get_elem? xs i ≡ some x → Memᴰ x xs
get_elem-Mem [] i x e = none_elim e
get_elem-Mem (y ∷ xs) zero x e = Memᴰ.head (sym (some_inj e))
get_elem-Mem (y ∷ xs) (suc i) x e = Memᴰ.tail (get_elem-Mem xs i x e)
