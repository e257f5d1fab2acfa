-- ===== src/I18n/Catalogue/Covers.antt =====
-- One catalogue against another: which has a text for every key of the other, as the type
-- `Translations` of frontend/src/lib/i18n/locales/en.ts demands of every language.
use agent_os_test.Prelude.{
  ◌≡◌, refl, sym, Bool, true, false, ◌&&◌, ◌||◌, Option, none, some, List, [], ◌∷◌, Text,
  text_has_eq, ◌==◌, contains, split, And-cases, Bool-cases, some_inj, none_elim, arith, inl, inr,
  Or-cases,
}
use agent_os_test.I18n.Interpolate.Placeholders.{placeholders}
use agent_os_test.I18n.Catalogue.{
  Catalogue, text, group, Entries, end, entry, child, step, descend, as_text, lookup_key,
}

-- Every name of the first list is one of the second.
abbrev pub subset : List Text → List Text → Bool
subset [] ys = true
subset (x ∷ xs) ys = contains x ys && subset xs ys

-- The same names, in whatever order.
abbrev pub same_names : List Text → List Text → Bool
same_names xs ys = subset xs ys && subset ys xs

-- Every text of the first has one at the same place of the second, with the same placeholders.
unfoldable mutual
  pub covers_node : Catalogue → Option Catalogue → Bool
  covers_node n none = false
  covers_node (text s) (some (text t)) = same_names (placeholders s) (placeholders t)
  covers_node (text s) (some (group es)) = false
  covers_node (group es) (some (text t)) = false
  covers_node (group es) (some (group fs)) = covers es fs

  pub covers : Entries → Entries → Bool
  covers end fs = true
  covers (entry key n es) fs = covers_node n (child fs key) && covers es fs

or_true : (b : Bool) → (b || true) ≡ true
or_true b = ground arith

subset-contains :
    (x : Text) (xs ys : List Text)
    → subset xs ys ≡ true
    → contains x xs ≡ true
    → contains x ys ≡ true
subset-contains x [] ys h k = cc
subset-contains x (z ∷ xs) ys h k =
    let (here, rest) = And-cases (contains z ys) (subset xs ys) h in
    elim (Or-cases (x == z) (contains x xs) k) [
      | inl same ↦ rw ((text_has_eq.is_same_iff x z).0 same) here
      | inr later ↦ subset-contains x xs ys rest later
    ]

-- The same placeholders, in whatever order.
abbrev pub SamePlaceholders : Text → Text → Type 0
SamePlaceholders s t =
    (name : Text) → contains name (placeholders s) ≡ contains name (placeholders t)

same_names-SamePlaceholders :
    (s t : Text) → same_names (placeholders s) (placeholders t) ≡ true → SamePlaceholders s t
same_names-SamePlaceholders s t h name =
    let (there, back) =
      And-cases (subset (placeholders s) (placeholders t))
        (subset (placeholders t) (placeholders s)) h in
    ground (
      arith,
      subset-contains name (placeholders s) (placeholders t) there,
      subset-contains name (placeholders t) (placeholders s) back,
    )

abbrev CoversAt : Option Catalogue → Option Catalogue → Type 0
CoversAt none own = Unit
CoversAt (some n) own = covers_node n own ≡ true

child-CoversAt :
    (es fs : Entries) (part : Text) → covers es fs ≡ true → CoversAt (child es part) (child fs part)
unfolding child covers_node
child-CoversAt end fs part h = tt
child-CoversAt (entry key n es) fs part h =
    let (here, rest) = And-cases (covers_node n (child fs key)) (covers es fs) h in
    elim (Bool-cases (part == key)) [
      | inl same ↦ rw (same, (text_has_eq.is_same_iff part key).0 same) here
      | inr other ↦ rw other (child-CoversAt es fs part rest)
    ]

step-CoversAt :
    (n own : Option Catalogue) (part : Text)
    → CoversAt n own
    → CoversAt (step n part) (step own part)
unfolding covers_node
step-CoversAt none own part h = tt
step-CoversAt (some (text s)) own part h = tt
step-CoversAt (some (group es)) none part h = cc
step-CoversAt (some (group es)) (some (text t)) part h = cc
step-CoversAt (some (group es)) (some (group fs)) part h = child-CoversAt es fs part h

descend-CoversAt :
    (parts : List Text) (n own : Option Catalogue)
    → CoversAt n own
    → CoversAt (descend n parts) (descend own parts)
unfolding descend
descend-CoversAt [] n own h = h
descend-CoversAt (part ∷ parts) n own h =
    descend-CoversAt parts (step n part) (step own part) (step-CoversAt n own part h)

as_text-CoversAt :
    (n own : Option Catalogue) (s : Text)
    → CoversAt n own
    → as_text n ≡ some s
    → (t : Text) × (as_text own ≡ some t) × SamePlaceholders s t
unfolding covers_node
as_text-CoversAt none own s h e = none_elim e
as_text-CoversAt (some (group es)) own s h e = none_elim e
as_text-CoversAt (some (text r)) none s h e = cc
as_text-CoversAt (some (text r)) (some (group fs)) s h e = cc
as_text-CoversAt (some (text r)) (some (text t)) s h e =
    (t, refl, rw (sym (some_inj e)) (same_names-SamePlaceholders r t h))

-- If the test accepts two catalogues, every key with a text in the first has one with the same
-- placeholders in the second.
pub covers_lem :
    (catalogue own : Catalogue) (key s : Text)
    → covers_node catalogue (some own) ≡ true
    → lookup_key catalogue key ≡ some s
    → (t : Text) × (lookup_key own key ≡ some t) × SamePlaceholders s t
unfolding lookup_key
covers_lem catalogue own key s h e =
    as_text-CoversAt (descend (some catalogue) (split b'.' key))
      (descend (some own) (split b'.' key)) s
      (descend-CoversAt (split b'.' key) (some catalogue) (some own) h) e
