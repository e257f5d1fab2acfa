-- ===== src/Navigation/Palette/Finds.antt =====
-- Which items the palette of frontend/src/components/layout/CommandPalette.tsx finds.
use mathlib.Core.List.{Memᴰ}
use agent_os_test.Prelude.{
  ◌≡◌, refl, sym, ◌∙◌, ap, ◌↔◌, ◌⊎◌, inl, inr, Bool, true, false, ◌||◌, Option, none, some, Text,
  text_has_eq, text_eq, units, Mem_filter, Mem_append, ◌==◌, ◌++◌, includes, is_empty, trim, lookup,
  every, every-Mem, Bool-cases, some_inj, none_elim, split, split_on, arith,
}
use agent_os_test.I18n.Catalogue.{Entries, end, entry, child, descend, lookup_key}
use agent_os_test.I18n.Locales.En.{en}
use agent_os_test.Navigation.{NavItem, all_nav_items, secondary_nav_items, searchable_nav_items}
use agent_os_test.Navigation.Palette.Search.{
  Speech, en_labels, english_items, labels_of, or_empty, is_found, results,
}

-- An item of the sidebar has its English text, in lower case, among the English labels.
abbrev HasLabel : Speech → NavItem → Type 0
HasLabel speech item =
    (s : Text) × (lookup_key en item.label_key ≡ some s)
    × (lookup item.label_key (en_labels speech) ≡ some (speech.lower s))

labels_of_lower :
    (lower : Text → Text) (es : Entries) (key s : Text)
    → lookup key (labels_of (λ t. t) es) ≡ some s
    → lookup key (labels_of lower es) ≡ some (lower s)
unfolding lookup
labels_of_lower lower end key s h = none_elim h
labels_of_lower lower (entry k value es) key s h =
    elim (Bool-cases (key == (units "nav.items." ++ k))) [
      | inl same ↦ rw same (ap some (ap lower (some_inj (rw same at h))))
      | inr other ↦ rw other (labels_of_lower lower es key s (rw other at h))
    ]

abbrev same_text : Option Text → Option Text → Bool
same_text none b = false
same_text (some s) none = false
same_text (some s) (some t) = s == t

same_text_lem :
    (a b : Option Text) → same_text a b ≡ true → (s : Text) × (a ≡ some s) × (b ≡ some s)
same_text_lem none b h = cc
same_text_lem (some s) none h = cc
same_text_lem (some s) (some t) h =
    let e : s ≡ t = (text_has_eq.is_same_iff s t).0 h in (s, refl, ap some (sym e))

labels_checked :
    every
      (λ item.
        same_text
          (lookup_key en item.label_key)
          (lookup item.label_key (labels_of (λ t. t) english_items)))
      all_nav_items
    ≡ true
unfolding lookup_key child text_eq split split_on english_items descend lookup
labels_checked = refl

sidebar-HasLabel :
    (speech : Speech) (item : NavItem) → Memᴰ item all_nav_items → HasLabel speech item
unfolding en_labels
sidebar-HasLabel speech item m =
    let checked =
      every-Mem
        (λ item.
          same_text (lookup_key en item.label_key)
            (lookup item.label_key (labels_of (λ t. t) english_items)))
        all_nav_items item labels_checked m in
    let (s, english, label) =
      same_text_lem (lookup_key en item.label_key)
        (lookup item.label_key (labels_of (λ t. t) english_items)) checked in
    (s, english, labels_of_lower speech.lower english_items item.label_key s label)

-- What the operator typed, as it is searched for.
abbrev pub sought : Speech → Text → Text
sought speech query = speech.lower (trim query)

results_iff :
    (speech : Speech) (query : Text) (item : NavItem)
    → Memᴰ item (results speech query) ↔ (
        Memᴰ item searchable_nav_items
        × ((is_empty (sought speech query) || is_found speech (sought speech query) item) ≡ true))
unfolding results
results_iff speech query item = elim (Bool-cases (is_empty (sought speech query))) [
  | inl all ↦ rw all (λ m. (m, refl), λ (m, e). m)
  | inr part ↦
      rw part (Mem_filter (is_found speech (sought speech query)) searchable_nav_items item)
]

or_found : (a b c d : Bool) → ((c ≡ true) ⊎ (d ≡ true)) → (a || (b || c || d)) ≡ true
or_found a b c d h = ground arith

-- The English label of the item, as `results` reads it.
abbrev label_of : Speech → NavItem → Text
label_of speech item = or_empty (lookup item.label_key (en_labels speech))

found_lem :
    (speech : Speech) (query : Text) (item : NavItem)
    → Memᴰ item searchable_nav_items
    → ((includes (label_of speech item) (sought speech query) ≡ true)
        ⊎ (includes (speech.lower item.to) (sought speech query) ≡ true))
    → Memᴰ item (results speech query)
found_lem speech query item m h =
    let q = sought speech query in
    (results_iff speech query item).1 (
      m,
      or_found (is_empty q) (includes (speech.lower (speech.translated item.label_key)) q)
          (includes (label_of speech item) q) (includes (speech.lower item.to) q) h,
    )

-- The palette shows the items that it finds, all of them for an empty query. Whatever the language
-- is, it finds an item of the sidebar by any part of its English text and any item by a part of
-- its address, both in lower case.
pub results-English :
    (speech : Speech) (query : Text) (item : NavItem)
    → (Memᴰ item (results speech query) ↔ (
        Memᴰ item searchable_nav_items
        × ((is_empty (sought speech query) || is_found speech (sought speech query) item) ≡ true)))
      × ((s : Text)
          → Memᴰ item all_nav_items
          → lookup_key en item.label_key ≡ some s
          → includes (speech.lower s) (sought speech query) ≡ true
          → Memᴰ item (results speech query))
      × (Memᴰ item searchable_nav_items
          → includes (speech.lower item.to) (sought speech query) ≡ true
          → Memᴰ item (results speech query))
results-English speech query item = (
  results_iff speech query item,
  λ s m english h.
      let (r, own, label) = sidebar-HasLabel speech item m in
      let same : r ≡ s = some_inj (sym own ∙ english) in
      found_lem speech query item ((Mem_append all_nav_items secondary_nav_items item).0 (inl m))
        (inl (rw label (rw same h))),
  λ m h. found_lem speech query item m (inr h),
)
