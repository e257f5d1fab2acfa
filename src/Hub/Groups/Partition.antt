-- ===== src/Hub/Groups/Partition.antt =====
-- No connector is lost or shown twice.
use agent_os_test.Prelude.{
  ℕ, ◌+◌, ◌≡◌, refl, ◌∙◌, Bool, List, [], ◌∷◌, map, Text, text_has_eq, text_eq, filter, length,
  arith,
}
use agent_os_test.Types.Connectors.{ConnectorCategory}
use agent_os_test.Hub.{UnifiedConnector}
use agent_os_test.Hub.Groups.{
  category_order, CategoryGroup, Sign, place, sort, in_category, group_of, has_some,
  group_by_category,
}

-- How many connectors of a list pass a test, and of all the groups.
abbrev pub tally : (UnifiedConnector → Bool) → List UnifiedConnector → ℕ
tally p l = length (filter p l)

abbrev pub total : (UnifiedConnector → Bool) → List CategoryGroup → ℕ
total p [] = 0
total p (g ∷ gs) = tally p g.connectors + total p gs

module _ (locale_compare : Text → Text → Sign) (p : UnifiedConnector → Bool) where
  tally-place :
      (a : UnifiedConnector) (l : List UnifiedConnector)
      → tally p (place locale_compare a l) ≡ tally p (a ∷ l)
  unfolding place
  tally-place a [] = refl
  tally-place a (b ∷ l) = ground (arith, tally-place a l)

  tally-sort : (l : List UnifiedConnector) → tally p (sort locale_compare l) ≡ tally p l
  unfolding sort
  tally-sort [] = refl
  tally-sort (a ∷ l) = ground (arith, tally-place a (sort locale_compare l), tally-sort l)

  total-has_some : (gs : List CategoryGroup) → total p (filter has_some gs) ≡ total p gs
  total-has_some [] = refl
  total-has_some (g ∷ gs) = ground (arith, total-has_some gs)

  -- The tallies of the categories, before they are sorted.
  abbrev spread : List UnifiedConnector → List ConnectorCategory → ℕ
  spread l [] = 0
  spread l (k ∷ ks) = tally p (filter (in_category k) l) + spread l ks

  total-groups :
      (l : List UnifiedConnector) (ks : List ConnectorCategory)
      → total p (map (group_of locale_compare l) ks) ≡ spread l ks
  total-groups l [] = refl
  total-groups l (k ∷ ks) = ground (arith, tally-sort (filter (in_category k) l), total-groups l ks)

  spread-order : (l : List UnifiedConnector) → spread l category_order ≡ tally p l
  unfolding text_eq
  spread-order [] = refl
  spread-order (c ∷ l) = ground (arith, spread-order l)

  -- Over all the groups, as many connectors pass a test as in the list that is grouped, whatever
  -- the test: none is lost, none is shown twice.
  pub group_by_category-total :
      (l : List UnifiedConnector) → total p (group_by_category locale_compare l) ≡ tally p l
  unfolding group_by_category
  group_by_category-total l =
      total-has_some (map (group_of locale_compare l) category_order)
      ∙ (total-groups l category_order ∙ spread-order l)
