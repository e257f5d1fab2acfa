-- ===== src/Navigation/Sidebar.antt =====
-- Which items the sidebar marks: frontend/src/components/layout/Sidebar.tsx.
use mathlib.Core.List.{Memᴰ}
use agent_os_test.Prelude.{
  ◌≡◌, refl, Bool, true, false, if◌then◌else◌, ◌&&◌, List, [], ◌∷◌, Text, text_has_eq, text_eq,
  units, ◌==◌, starts_with, filter, every, every-Mem, And-cases, Or-cases, inl, inr, ◌≢◌, ◌||◌,
}
use agent_os_test.Navigation.{NavItem, all_nav_items, searchable_nav_items}

-- `isActive`
abbrev pub is_active : Text → NavItem → Bool
is_active pathname item =
    if item.to == units "/" then pathname == units "/" else starts_with pathname item.to

abbrev pub active_items : Text → List NavItem
active_items pathname = filter (is_active pathname) all_nav_items

abbrev pub own_items : Text → List NavItem
own_items pathname = filter (λ item. pathname == item.to) all_nav_items

abbrev pub addresses : List NavItem → List Text
addresses [] = []
addresses (item ∷ items) = item.to ∷ addresses items

abbrev same_addresses : List Text → List Text → Bool
same_addresses [] [] = true
same_addresses [] (b ∷ bs) = false
same_addresses (a ∷ more) [] = false
same_addresses (a ∷ more) (b ∷ bs) = a == b && same_addresses more bs

same_addresses_lem : (xs ys : List Text) → same_addresses xs ys ≡ true → xs ≡ ys
same_addresses_lem [] [] h = refl
same_addresses_lem [] (b ∷ bs) h = cc
same_addresses_lem (a ∷ more) [] h = cc
same_addresses_lem (a ∷ more) (b ∷ bs) h =
    let (here, rest) = And-cases (a == b) (same_addresses more bs) h in
    rw ((text_has_eq.is_same_iff a b).0 here, same_addresses_lem more bs rest)

-- The address of the runs of workflows, below that of the workflows.
abbrev pub runs_address : Text
runs_address = units "/workflows/runs"

abbrev is_marked_alone : NavItem → Bool
is_marked_alone item =
    item.to == runs_address
    || same_addresses (addresses (active_items item.to)) (addresses (own_items item.to))

all_marked_alone : every is_marked_alone searchable_nav_items ≡ true
unfolding starts_with text_eq
all_marked_alone = refl

marked_twice : addresses (active_items runs_address) ≡ units "/workflows" ∷ (runs_address ∷ [])
unfolding starts_with text_eq
marked_twice = refl

-- At the address of an item the sidebar marks the items with that address and no other, unless it
-- is the address of the workflow runs: there the sidebar marks the workflows as well.
pub active_items-own :
    ((item : NavItem)
      → Memᴰ item searchable_nav_items
      → item.to ≢ runs_address
      → addresses (active_items item.to) ≡ addresses (own_items item.to))
    × (addresses (active_items runs_address) ≡ units "/workflows" ∷ (runs_address ∷ []))
active_items-own = (alone, marked_twice)
  where
    alone :
        (item : NavItem)
        → Memᴰ item searchable_nav_items
        → item.to ≢ runs_address
        → addresses (active_items item.to) ≡ addresses (own_items item.to)
    alone item m other =
        elim (Or-cases (item.to == runs_address) _
          (every-Mem is_marked_alone searchable_nav_items item all_marked_alone m)) [
            | inl same ↦ absurd (other ((text_has_eq.is_same_iff item.to runs_address).0 same))
            | inr rest ↦
                same_addresses_lem (addresses (active_items item.to))
                  (addresses (own_items item.to)) rest
          ]
