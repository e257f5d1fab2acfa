-- ===== src/Navigation/Addresses.antt =====
-- The items of the navigation against the declared routes and the catalogues.
use agent_os_test.Prelude.{
  ◌≡◌, refl, Bool, true, false, ◌&&◌, ◌||◌, Option, none, some, List, Text, text_has_eq, text_eq,
  ◌==◌, split, split_on, And-cases, is_some, is_some_lem, Or-cases, filter, length, every,
  every-Mem, eqb, eqb_iff, ◌≢◌, inl, inr,
}
use mathlib.Core.List.{Memᴰ}
use agent_os_test.I18n.Catalogue.{child, lookup_key}
use agent_os_test.I18n.Locales.En.{en}
use agent_os_test.I18n.Locales.Hi.{hi}
use agent_os_test.I18n.Locales.Translated.{catalogues-HasSame}
use agent_os_test.Navigation.{NavItem, searchable_nav_items}
use agent_os_test.Navigation.Routes.{Page, RoutePath, index, path, splat, routes, address}

abbrev pub goes_to : Option Text → NavItem → Bool
goes_to none item = false
goes_to (some a) item = a == item.to

-- The routes that the item's address is the address of.
abbrev pub routes_to : NavItem → List (RoutePath × Page)
routes_to item = filter (λ (p, page). goes_to (address p) item) routes

-- The items that lead to the route.
abbrev pub items_to : RoutePath → List NavItem
items_to p = filter (goes_to (address p)) searchable_nav_items

abbrev one {ℓ} : {A : Type ℓ} → List A → Bool
one xs = eqb (length xs) 1

items_checked :
    every
      (λ item. one (routes_to item) && is_some (lookup_key en item.label_key))
      searchable_nav_items
    ≡ true
unfolding lookup_key child text_eq split split_on
items_checked = refl

abbrev is_splat : RoutePath → Bool
is_splat p = elim (address p) [ none ↦ true | some a ↦ false ]

routes_checked : every (λ (p, page). is_splat p || one (items_to p)) routes ≡ true
unfolding text_eq
routes_checked = refl

-- The item's address is that of exactly one route, and its label has a text in both languages.
pub record IsAddressed (item : NavItem) : Type 0 where
  pub one_route : length (routes_to item) ≡ 1
  pub english : (s : Text) × (lookup_key en item.label_key ≡ some s)
  pub hindi : (s : Text) × (lookup_key hi item.label_key ≡ some s)

is_splat_lem : (p : RoutePath) → is_splat p ≡ true → p ≡ splat
is_splat_lem index h = cc
is_splat_lem (path p) h = cc
is_splat_lem splat h = refl

one_lem {ℓ} : {A : Type ℓ} (xs : List A) → one xs ≡ true → length xs ≡ 1
one_lem xs h = (eqb_iff (length xs) 1).0 h

item-IsAddressed : (item : NavItem) → Memᴰ item searchable_nav_items → IsAddressed item
item-IsAddressed item m =
    let checked =
      every-Mem (λ item. one (routes_to item) && is_some (lookup_key en item.label_key))
        searchable_nav_items item items_checked m in
    let (single, label) =
      And-cases (one (routes_to item)) (is_some (lookup_key en item.label_key)) checked in
    let (s, found) = is_some_lem (lookup_key en item.label_key) label in
    let (t, own, same) = (catalogues-HasSame item.label_key).0 s found in
    record { one_route = one_lem (routes_to item) single; english = (s, found); hindi = (t, own) }

-- Every item of `searchableNavItems` has the address of exactly one declared route and a label in
-- English and in Hindi, and every declared route but the one for unknown addresses is the address
-- of exactly one item of it.
pub navigation-IsAddressed :
    ((item : NavItem) → Memᴰ item searchable_nav_items → IsAddressed item)
    × ((p : RoutePath) (page : Page) → Memᴰ (p, page) routes → p ≢ splat → length (items_to p) ≡ 1)
navigation-IsAddressed = (
  item-IsAddressed,
  λ p page m declared.
      elim (Or-cases (is_splat p) (one (items_to p)) (
        every-Mem (λ (p, page). is_splat p || one (items_to p)) routes (p, page) routes_checked
          m)) [
            | inl last ↦ absurd (declared (is_splat_lem p last))
            | inr single ↦ one_lem (items_to p) single
          ],
)
