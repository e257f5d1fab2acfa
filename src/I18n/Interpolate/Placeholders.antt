-- ===== src/I18n/Interpolate/Placeholders.antt =====
-- The names that a template of frontend/src/lib/i18n/locales asks values for.
use agent_os_test.Prelude.{
  ◌≡◌, refl, ap, Bool, true, false, not, ◌&&◌, ◌||◌, none, some, List, [], ◌∷◌, ◌++◌, Text,
  text_has_eq, text_eq, eqb, is_word, is_empty, contains, eq_refl, arith,
}
use agent_os_test.I18n.Interpolate.{
  Inherited, Vars, braced, property, replacement, outside, inside, interpolate,
}

-- The matches of the pattern, by the pass of `interpolate`.
unfoldable mutual
  pub names_outside : Text → List Text
  names_outside [] = []
  names_outside (c ∷ s) = elim (eqb c b'{') [ true ↦ names_inside [] s | false ↦ names_outside s ]

  pub names_inside : Text → Text → List Text
  names_inside word [] = []
  names_inside word (c ∷ s) = elim (is_word c) [
    | true ↦ names_inside (word ++ (c ∷ [])) s
    | false ↦ elim (eqb c b'{') [
      | true ↦ names_inside [] s
      | false ↦ elim (eqb c b'}' && not (is_empty word)) [
        | true ↦ word ∷ names_outside s
        | false ↦ names_outside s
      ]
    ]
  ]

abbrev pub placeholders : Text → List Text
placeholders template = names_outside template

module _ (inherited : Inherited) (vars others : Vars) where
  -- The same value, or none, under each of the names.
  abbrev pub Agree : List Text → Type 0
  Agree names =
      (name : Text)
      → contains name names ≡ true
      → property inherited vars name ≡ property inherited others name

  or_true : (b : Bool) → (b || true) ≡ true
  or_true b = ground arith

  replacement-Agree :
      (name : Text) (names : List Text)
      → Agree (name ∷ names)
      → replacement inherited vars name ≡ replacement inherited others name
  replacement-Agree name names h = rw (
      ap {B = Text} (λ p. elim p [ none ↦ braced name | some value ↦ value ])
        (h name (rw (eq_refl name))))

  Agree-tail : (name : Text) (names : List Text) → Agree (name ∷ names) → Agree names
  Agree-tail name names h other found = h other (rw found (or_true (text_eq other name)))

  mutual
    unfolding names_outside outside

    outside-Agree :
        (s : Text) → Agree (names_outside s) → outside inherited vars s ≡ outside inherited others s
    outside-Agree [] h = refl
    outside-Agree (c ∷ s) h = ground (arith, outside-Agree s, inside-Agree [] s)

    inside-Agree :
        (word s : Text)
        → Agree (names_inside word s)
        → inside inherited vars word s ≡ inside inherited others word s
    inside-Agree word [] h = refl
    inside-Agree word (c ∷ s) h = ground (
      arith,
      inside-Agree (word ++ (c ∷ [])) s,
      inside-Agree [] s,
      outside-Agree s,
      replacement-Agree word (names_outside s),
      Agree-tail word (names_outside s),
    )

-- What a template gives depends on the values under the names of its placeholders alone: values
-- that agree on these give the same text.
pub interpolate-placeholders :
    (inherited : Inherited) (vars others : Vars) (template : Text)
    → Agree inherited vars others (placeholders template)
    → interpolate inherited template (some vars) ≡ interpolate inherited template (some others)
unfolding interpolate
interpolate-placeholders inherited vars others template h =
    outside-Agree inherited vars others template h
