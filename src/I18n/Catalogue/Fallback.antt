-- ===== src/I18n/Catalogue/Fallback.antt =====
-- What is shown for a key that a catalogue does not have.
use agent_os_test.Prelude.{
  ◌≡◌, refl, ◌⊎◌, inl, inr, Option, none, some, [], ◌∷◌, ◌++◌, Text, units, Option-cases,
}
use agent_os_test.I18n.Interpolate.{Inherited, Vars, interpolate}
use agent_os_test.I18n.Catalogue.{Catalogue, lookup_key, suffixed, other, translate, plural}

module _ (inherited : Inherited) (catalogue en : Catalogue) where
  -- The template that was found is one of the catalogue's, or one of the English catalogue's under
  -- a key that the catalogue does not have.
  abbrev pub ComesFrom : Text → Text → Type 0
  ComesFrom key template =
      (lookup_key catalogue key ≡ some template)
      ⊎ (lookup_key catalogue key ≡ none) × (lookup_key en key ≡ some template)

  -- A key that the English catalogue has is shown by the language's own text, or by the English
  -- one if the language has none. A key that neither has is shown as it is.
  pub translate-ComesFrom :
      (key : Text) (vars : Option Vars)
      → ((english : Text)
          → lookup_key en key ≡ some english
          → (template : Text) × ComesFrom key template
            × (translate inherited catalogue en key vars ≡ interpolate inherited template vars))
        × (lookup_key catalogue key ≡ none
            → lookup_key en key ≡ none
            → translate inherited catalogue en key vars ≡ key)
  unfolding translate
  translate-ComesFrom key vars = (
    λ english e. elim (Option-cases (lookup_key catalogue key)) [
      | inl missing ↦ (english, inr (missing, e), rw (missing, e))
      | inr (own, found) ↦ (own, inl found, rw found)
    ],
    λ missing absent. rw (missing, absent),
  )

  -- If the English catalogue has the form `_other` of a key, a plural is shown by a template that
  -- one of the two catalogues has under the form of the category or the form `_other`.
  pub plural-found :
      (key category count : Text) (vars : Vars) (english : Text)
      → lookup_key en (suffixed key other) ≡ some english
      → (form template : Text) × ((form ≡ suffixed key category) ⊎ (form ≡ suffixed key other))
        × ((lookup_key catalogue form ≡ some template) ⊎ (lookup_key en form ≡ some template))
        × (plural inherited catalogue en key category count vars
            ≡ interpolate inherited template (some (vars ++ ((units "count", count) ∷ []))))
  unfolding plural
  plural-found key category count vars english e =
      elim (Option-cases (lookup_key catalogue (suffixed key category))) [
        | inr (t, found) ↦ (suffixed key category, t, inl refl, inl found, rw found)
        | inl no_own ↦ elim (Option-cases (lookup_key catalogue (suffixed key other))) [
          | inr (t, found) ↦ (suffixed key other, t, inr refl, inl found, rw (no_own, found))
          | inl no_other ↦ elim (Option-cases (lookup_key en (suffixed key category))) [
            | inr (t, found) ↦
                (suffixed key category, t, inl refl, inr found, rw (no_own, no_other, found))
            | inl no_english ↦
                (suffixed key other, english, inr refl, inr e, rw (no_own, no_other, no_english, e))
          ]
        ]
      ]
