-- ===== src/Prelude/Tests.antt =====
-- Boolean tests, the conditional, and equality as an interface.
use Prim.Native.Nat.{ℕ, ◌≤◌, ◌<◌, compare, Ordering}
use mathlib.Core.Path.{◌≡◌, refl}
use mathlib.Core.Logic.{◌↔◌, ◌⊎◌, inl, inr}
use mathlib.Core.Bool.{◌&&◌, ◌||◌, Bool, true, false}
use mathlib.Core.Option
use mathlib.Core.Option.{Option, none, some, some-injective, none-ne-some}
use native.Mathlib.Omega.{arith}

abbrev pub ltb : ℕ → ℕ → Bool
ltb a b = elim (compare a b) [ Ordering.lt ↦ true | _ ↦ false ]

abbrev pub leb : ℕ → ℕ → Bool
leb a b = elim (compare a b) [ Ordering.gt ↦ false | _ ↦ true ]

abbrev pub eqb : ℕ → ℕ → Bool
eqb a b = elim (compare a b) [ Ordering.eq ↦ true | _ ↦ false ]

infix 1 if◌then◌else◌
abbrev pub if◌then◌else◌ {ℓ} : {A : Type ℓ} → Bool → A → A → A
if true then x else y = x
if false then x else y = y

pub ltb→lt : (a b : ℕ) → ltb a b ≡ true → a < b
ltb→lt a b h = ground arith

pub lt_ltb : (a b : ℕ) → a < b → ltb a b ≡ true
lt_ltb a b h = ground arith

pub leb→le : (a b : ℕ) → leb a b ≡ true → a ≤ b
leb→le a b h = ground arith

pub eqb_iff : (a b : ℕ) → (eqb a b ≡ true) ↔ (a ≡ b)
eqb_iff a b = ground arith

-- To split on a computed value and keep the equation.
pub Bool-cases : (b : Bool) → (b ≡ true) ⊎ (b ≡ false)
Bool-cases true = inl refl
Bool-cases false = inr refl

pub Or-cases : (a b : Bool) → (a || b) ≡ true → (a ≡ true) ⊎ (b ≡ true)
Or-cases true b h = inl refl
Or-cases false b h = inr h

pub And-cases : (a b : Bool) → (a && b) ≡ true → (a ≡ true) × (b ≡ true)
And-cases true b h = (refl, h)
And-cases false b h = cc

pub Option-cases {ℓ} : {A : Type ℓ} (o : Option A) → (o ≡ none) ⊎ ((a : A) × (o ≡ some a))
Option-cases none = inl refl
Option-cases (some a) = inr (a, refl)

abbrev pub is_some {ℓ} : {A : Type ℓ} → Option A → Bool
is_some none = false
is_some (some a) = true

pub is_some_lem {ℓ} : {A : Type ℓ} (o : Option A) → is_some o ≡ true → (a : A) × (o ≡ some a)
is_some_lem none h = cc
is_some_lem (some a) h = (a, refl)

pub some_inj {ℓ} : {A : Type ℓ} {a b : A} → some a ≡ some b → a ≡ b
some_inj {a} {b} h = some-injective a b h

pub none_elim {ℓ κ} : {A : Type ℓ} {C : Type κ} {a : A} → none ≡ some a → C
none_elim {a} h = absurd (none-ne-some a h)

pub map-eq-some {ℓ κ} :
    {A : Type ℓ} {B : Type κ} (f : A → B) (o : Option A) {b : B}
    → Option.map f o ≡ some b
    → (a : A) × (o ≡ some a) × (f a ≡ b)
map-eq-some f none h = cc
map-eq-some f (some a) h = (a, refl, some_inj h)

-- `===` on a type whose values are told apart.
pub record StrictEq {ℓ} (A : Type ℓ) : Type ℓ where
  pub is_same : (x y : A) → Bool
  -- It is that of the values.
  pub is_same_iff : (x y : A) → (is_same x y ≡ true) ↔ (x ≡ y)

abbrev pub decb {ℓ} : {A : Type ℓ} → Dec A → Bool
decb (yes a) = true
decb (no n) = false

pub decb_iff {ℓ} : {A : Type ℓ} (d : Dec A) → (decb d ≡ true) ↔ A
decb_iff (yes a) = (λ _. a, λ _. refl)
decb_iff (no n) = (λ e. cc, λ a. absurd (n a))

-- `a === b`
infix 50 ◌==◌
abbrev pub ◌==◌ {ℓ} : {A : Type ℓ} ⦃strict : StrictEq A⦄ → A → A → Bool
◌==◌ ⦃strict⦄ a b = strict.is_same a b

-- The equality of an enumeration, from its decision.
abbrev pub eq_of_discrete {ℓ} : {A : Type ℓ} → Discrete A → StrictEq A
eq_of_discrete d = record { is_same = λ a b. decb (d a b); is_same_iff = λ a b. decb_iff (d a b) }

instance abbrev pub nat_eq : StrictEq ℕ
nat_eq = record { is_same = eqb; is_same_iff = eqb_iff }

-- To prove something of a conditional, and keep the equation of its test.
pub if_intro {ℓ κ} :
    {A : Type ℓ} (P : A → Type κ) (b : Bool) (x y : A)
    → (b ≡ true → P x)
    → (b ≡ false → P y)
    → P (if b then x else y)
if_intro P true x y h k = h refl
if_intro P false x y h k = k refl
