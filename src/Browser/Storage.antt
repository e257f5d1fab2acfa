-- ===== src/Browser/Storage.antt =====
-- `sessionStorage` and `localStorage`. An access may throw: in private mode every one does, and a
-- write also where the quota is met.
use agent_os_test.Prelude.{
  ◌≡◌, refl, Bool, ◌&&◌, true, false, Option, none, some, List, Text, text_has_eq, lookup, insert,
  remove, lookup-insert, lookup-remove, Bool-cases, And-cases, inl, inr, if◌then◌else◌, ◌==◌, arith,
}

pub record Storage : Type 0 where
  -- Whether the storage can be reached at all.
  pub available : Bool
  -- Whether a key and a value fit the quota.
  pub fits : Text → Text → Bool
  pub items : List (Text × Text)

-- A call that may throw.
pub data Attempt {ℓ} (A : Type ℓ) : Type ℓ where
  returned : A → Attempt A
  thrown : Attempt A

-- `getItem`
unfoldable pub get_item : Storage → Text → Attempt (Option Text)
get_item st k = if st.available then returned (lookup k st.items) else thrown

-- `setItem`
unfoldable pub set_item : Storage → Text → Text → Attempt Storage
set_item st k v =
    if st.available && st.fits k v
    then returned (record st { items = insert k v st.items })
    else thrown

-- `removeItem`
unfoldable pub remove_item : Storage → Text → Attempt Storage
remove_item st k =
    if st.available then returned (record st { items = remove k st.items }) else thrown

-- `try { storage = … } catch { }`
abbrev pub or_else : Storage → Attempt Storage → Storage
or_else st (returned st') = st'
or_else st thrown = st

-- Whether a write of that value is taken.
abbrev pub Takes : Storage → Text → Text → Type 0
Takes st k v = (st.available ≡ true) × (st.fits k v ≡ true)

-- A write that is taken changes one item.
pub get_item-set_item :
    (st : Storage) (k j v : Text)
    → Takes st k v
    → get_item (or_else st (set_item st k v)) j
      ≡ (if j == k then returned (some v) else get_item st j)
unfolding get_item set_item
get_item-set_item st k j v (h, f) = ground (arith, lookup-insert j k v st.items)

-- A write that throws changes none.
pub set_item-refused :
    (st : Storage) (k v : Text) → ¬ Takes st k v → or_else st (set_item st k v) ≡ st
unfolding set_item
set_item-refused st k v h = elim (Bool-cases (st.available && st.fits k v)) [
  | inl ok ↦ absurd (h (And-cases _ _ ok))
  | inr refused ↦ rw (refused, set_item)
]

pub get_item-remove_item :
    (st : Storage) (k j : Text)
    → st.available ≡ true
    → get_item (or_else st (remove_item st k)) j ≡ (if j == k then returned none else get_item st j)
unfolding get_item remove_item
get_item-remove_item st k j h = ground (arith, lookup-remove j k st.items)

pub get_item-unavailable : (st : Storage) (k : Text) → st.available ≡ false → get_item st k ≡ thrown
unfolding get_item
get_item-unavailable st k h = rw h

-- A write leaves the storage as reachable as it was, with the same quota.
pub set_item-available :
    (st : Storage) (k v : Text)
    → ((or_else st (set_item st k v)).available ≡ st.available)
      × ((or_else st (set_item st k v)).fits ≡ st.fits)
unfolding set_item
set_item-available st k v = elim (Bool-cases (st.available && st.fits k v)) [
  | inl ok ↦ rw (ok, set_item) (refl, refl)
  | inr refused ↦ rw (refused, set_item) (refl, refl)
]

pub remove_item-refused :
    (st : Storage) (k : Text) → st.available ≡ false → or_else st (remove_item st k) ≡ st
unfolding remove_item
remove_item-refused st k h = rw (h, remove_item)
