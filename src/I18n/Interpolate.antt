-- ===== src/I18n/Interpolate.antt =====
-- `interpolate` of frontend/src/lib/i18n/index.tsx.
pub mod Pieces
pub mod Placeholders
mod Tests
use agent_os_test.Prelude.{
  Bool, true, false, not, ◌&&◌, Option, none, some, List, [], ◌∷◌, ◌++◌, Text, text_has_eq, eqb,
  is_word, is_empty, lookup, if◌then◌else◌,
}

-- The values given for the placeholders. A number stands as the text that `String` makes of it.
abbrev pub Vars : Type 0
Vars = List (Text × Text)

-- The properties that an object inherits, as the texts that `String` makes of them: `in` and an
-- index find these too.
abbrev pub Inherited : Type 0
Inherited = Text → Option Text

-- `vars[name]`, where `name in vars`
abbrev pub property : Inherited → Vars → Text → Option Text
property inherited vars name = elim (lookup name vars) [
  | none ↦ inherited name
  | some value ↦ some value
]

abbrev pub braced : Text → Text
braced name = b'{' ∷ (name ++ (b'}' ∷ []))

-- What stands for a match of the pattern.
abbrev pub replacement : Inherited → Vars → Text → Text
replacement inherited vars name = elim (property inherited vars name) [
  | none ↦ braced name
  | some value ↦ value
]

-- `template.replace(/\{(\w+)\}/g, …)` by one pass: `outside` of a brace, and `inside` behind a
-- brace and the word units that follow it.
mutual
  pub outside : Inherited → Vars → Text → Text
  outside inherited vars [] = []
  outside inherited vars (c ∷ s) = elim (eqb c b'{') [
    | true ↦ inside inherited vars [] s
    | false ↦ c ∷ outside inherited vars s
  ]

  pub inside : Inherited → Vars → Text → Text → Text
  inside inherited vars word [] = b'{' ∷ word
  inside inherited vars word (c ∷ s) = elim (is_word c) [
    | true ↦ inside inherited vars (word ++ (c ∷ [])) s
    | false ↦ elim (eqb c b'{') [
      | true ↦ b'{' ∷ (word ++ inside inherited vars [] s)
      | false ↦ elim (eqb c b'}' && not (is_empty word)) [
        | true ↦ replacement inherited vars word ++ outside inherited vars s
        | false ↦ b'{' ∷ (word ++ (c ∷ outside inherited vars s))
      ]
    ]
  ]

-- `interpolate`
unfoldable pub interpolate : Inherited → Text → Option Vars → Text
unfolding outside
interpolate inherited template none = template
interpolate inherited template (some vars) = outside inherited vars template
