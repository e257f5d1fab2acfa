-- ===== src/Hub/Groups/Ranked.antt =====
-- The order within a group.
use mathlib.Core.Path.{subst}
use agent_os_test.Prelude.{
  sym, ◌⊎◌, ℕ, ◌≤◌, ◌≡◌, ◌≢◌, inl, inr, Bool, true, not, List, [], ◌∷◌, map, Text, text_has_eq,
  filter, is_empty, arith, Bool-cases, All,
}
use agent_os_test.Types.Connectors.{ConnectorCategory}
use agent_os_test.Hub.{UnifiedConnector, is_coming_soon}
use agent_os_test.Hub.Groups.{
  rank, category_order, CategoryGroup, Sign, place, sort, in_category, group_of, has_some,
  group_by_category,
}

-- Each connector's rank is at most that of every later one.
abbrev IsRanked : List UnifiedConnector → Type 0
IsRanked [] = Unit
IsRanked (c ∷ l) = All (λ d. rank c ≤ rank d) l × IsRanked l

-- One that is built comes before one that is not, and of two that are built, or of two that are not,
-- a popular one comes first.
abbrev pub Precedes : UnifiedConnector → UnifiedConnector → Type 0
Precedes a b =
    (b.entry.implemented ≡ true → a.entry.implemented ≡ true)
    × (a.entry.implemented ≡ b.entry.implemented → b.entry.popular ≡ true → a.entry.popular ≡ true)

-- Each connector precedes every later one.
abbrev pub IsOrdered : List UnifiedConnector → Type 0
IsOrdered [] = Unit
IsOrdered (c ∷ l) = All (Precedes c) l × IsOrdered l

rank-Precedes : (a b : UnifiedConnector) → rank a ≤ rank b → Precedes a b
unfolding is_coming_soon
rank-Precedes a b h = (λ built. ground arith, λ same popular. ground arith)

All-Precedes :
    (c : UnifiedConnector) (l : List UnifiedConnector)
    → All (λ d. rank c ≤ rank d) l
    → All (Precedes c) l
All-Precedes c [] h = tt
All-Precedes c (d ∷ l) (h, hs) = (rank-Precedes c d h, All-Precedes c l hs)

IsRanked-IsOrdered : (l : List UnifiedConnector) → IsRanked l → IsOrdered l
IsRanked-IsOrdered [] h = tt
IsRanked-IsOrdered (c ∷ l) (h, hs) = (All-Precedes c l h, IsRanked-IsOrdered l hs)

abbrev Below : ℕ → List UnifiedConnector → Type 0
Below n l = All (λ d. n ≤ rank d) l

Below-trans : (m n : ℕ) (l : List UnifiedConnector) → m ≤ n → Below n l → Below m l
Below-trans m n [] h k = tt
Below-trans m n (c ∷ l) h (k, ks) = (omega arith, Below-trans m n l h ks)

Below-filter :
    (n : ℕ) (p : UnifiedConnector → Bool) (l : List UnifiedConnector)
    → Below n l
    → Below n (filter p l)
Below-filter n p [] h = tt
Below-filter n p (c ∷ l) (h, hs) = elim (Bool-cases (p c)) [
  | inl e ↦ rw e (h, Below-filter n p l hs)
  | inr e ↦ rw e (Below-filter n p l hs)
]

filter-All :
    (p : UnifiedConnector → Bool) (l : List UnifiedConnector) → All (λ c. p c ≡ true) (filter p l)
filter-All p [] = tt
filter-All p (c ∷ l) = elim (Bool-cases (p c)) [
  | inl e ↦ rw e (e, filter-All p l)
  | inr e ↦ rw e (filter-All p l)
]

filled-ne-nil : (l : List UnifiedConnector) → not (is_empty l) ≡ true → l ≢ []
filled-ne-nil [] h e = cc
filled-ne-nil (c ∷ l) h e = cc

module _ (locale_compare : Text → Text → Sign) where
  place-cases :
      (a b : UnifiedConnector) (l : List UnifiedConnector)
      → ((place locale_compare a (b ∷ l) ≡ b ∷ place locale_compare a l) × (rank b ≤ rank a))
        ⊎ ((place locale_compare a (b ∷ l) ≡ a ∷ (b ∷ l)) × (rank a ≤ rank b))
  unfolding place
  place-cases a b l = ground arith

  Below-place :
      (n : ℕ) (a : UnifiedConnector) (l : List UnifiedConnector)
      → n ≤ rank a
      → Below n l
      → Below n (place locale_compare a l)
  Below-place n a [] h k = unfold place in (h, tt)
  Below-place n a (b ∷ l) h (k, ks) =
      let rest = Below-place n a l h ks in
      elim (place-cases a b l) [
        | inl (e, _) ↦ subst (Below n) (sym e) (k, rest)
        | inr (e, _) ↦ subst (Below n) (sym e) (h, (k, ks))
      ]

  place-IsRanked :
      (a : UnifiedConnector) (l : List UnifiedConnector)
      → IsRanked l
      → IsRanked (place locale_compare a l)
  place-IsRanked a [] h = unfold place in (tt, tt)
  place-IsRanked a (b ∷ l) (h, hs) =
      let rest = place-IsRanked a l hs in
      elim (place-cases a b l) [
        | inl (e, le) ↦ subst IsRanked (sym e) (Below-place (rank b) a l le h, rest)
        | inr (e, le) ↦ subst IsRanked (sym e) ((le, Below-trans (rank a) (rank b) l le h), (h, hs))
      ]

  sort-IsRanked : (l : List UnifiedConnector) → IsRanked (sort locale_compare l)
  unfolding sort
  sort-IsRanked [] = tt
  sort-IsRanked (a ∷ l) = place-IsRanked a (sort locale_compare l) (sort-IsRanked l)

  place-All {κ} :
      (P : UnifiedConnector → Type κ) (a : UnifiedConnector) (l : List UnifiedConnector)
      → P a
      → All P l
      → All P (place locale_compare a l)
  place-All P a [] h k = unfold place in (h, tt)
  place-All P a (b ∷ l) h (k, ks) =
      let rest = place-All P a l h ks in
      elim (place-cases a b l) [
        | inl (e, _) ↦ subst (All P) (sym e) (k, rest)
        | inr (e, _) ↦ subst (All P) (sym e) (h, (k, ks))
      ]

  sort-All {κ} :
      (P : UnifiedConnector → Type κ) (l : List UnifiedConnector)
      → All P l
      → All P (sort locale_compare l)
  unfolding sort
  sort-All P [] h = tt
  sort-All P (a ∷ l) (h, hs) = place-All P a (sort locale_compare l) h (sort-All P l hs)

  -- What a group of the hub looks like.
  pub record IsShown (g : CategoryGroup) : Type 0 where
    pub some_connector : g.connectors ≢ []
    pub ordered : IsOrdered g.connectors
    pub of_category : All (λ c. in_category g.category c ≡ true) g.connectors

  groups-IsShown :
      (l : List UnifiedConnector) (ks : List ConnectorCategory)
      → All IsShown (filter has_some (map (group_of locale_compare l) ks))
  groups-IsShown l [] = tt
  groups-IsShown l (k ∷ ks) = elim (Bool-cases (has_some (group_of locale_compare l k))) [
    | inl e ↦ rw e (
      record {
        some_connector = filled-ne-nil _ e;
        ordered = IsRanked-IsOrdered _ (sort-IsRanked _);
        of_category = sort-All (λ c. in_category k c ≡ true) _ (filter-All (in_category k) l);
      },
      groups-IsShown l ks,
    )
    | inr e ↦ rw e (groups-IsShown l ks)
  ]

  -- Every group has a connector, all of them are of its category, one that is built comes before
  -- every one that is not, and of two that are built, or of two that are not, a popular one comes
  -- before one that is not popular.
  pub group_by_category-IsShown :
      (l : List UnifiedConnector) → All IsShown (group_by_category locale_compare l)
  unfolding group_by_category
  group_by_category-IsShown l = groups-IsShown l category_order
