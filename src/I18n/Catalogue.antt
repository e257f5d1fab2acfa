-- ===== src/I18n/Catalogue.antt =====
-- The texts of a language, `t` and `plural`: frontend/src/lib/i18n/index.tsx.
pub mod Fallback
pub mod Covers
mod Tests
use agent_os_test.Prelude.{
  Bool, Option, none, some, List, [], ◌∷◌, ◌++◌, Text, text_has_eq, units, ◌==◌, split,
  if◌then◌else◌,
}
use agent_os_test.I18n.Interpolate.{Inherited, Vars, interpolate}

-- A catalogue: texts under dotted keys.
mutual
  pub data Catalogue : Type 0 where
    text : Text → Catalogue
    group : Entries → Catalogue

  pub data Entries : Type 0 where
    end : Entries
    entry : Text → Catalogue → Entries → Entries

-- `node[part]` at own keys. What an object inherits is no text and holds none.
unfoldable pub child : Entries → Text → Option Catalogue
child end part = none
child (entry key node es) part = if part == key then some node else child es part

abbrev pub step : Option Catalogue → Text → Option Catalogue
step none part = none
step (some (text s)) part = none
step (some (group es)) part = child es part

-- The `reduce` over the parts of a key.
unfoldable pub descend : Option Catalogue → List Text → Option Catalogue
unfolding child
descend node [] = node
descend node (part ∷ parts) = descend (step node part) parts

abbrev pub as_text : Option Catalogue → Option Text
as_text none = none
as_text (some (text s)) = some s
as_text (some (group es)) = none

-- `lookup`
unfoldable pub lookup_key : Catalogue → Text → Option Text
unfolding descend
lookup_key catalogue key = as_text (descend (some catalogue) (split b'.' key))

-- `a ?? b`
abbrev pub coalesce : Option Text → Option Text → Option Text
coalesce none b = b
coalesce (some a) b = some a

-- What is shown for a template that was found, and the key where none was.
abbrev pub shown : Inherited → Text → Option Text → Option Vars → Text
shown inherited key none vars = key
shown inherited key (some template) vars = interpolate inherited template vars

abbrev pub suffixed : Text → Text → Text
suffixed key category = key ++ (b'_' ∷ category)

abbrev pub other : Text
other = units "other"

module _ (inherited : Inherited) (catalogue en : Catalogue) where
  abbrev pub template_of : Text → Option Text
  template_of key = coalesce (lookup_key catalogue key) (lookup_key en key)

  -- `t`
  unfoldable pub translate : Text → Option Vars → Text
  translate key vars = shown inherited key (template_of key) vars

  abbrev pub plural_template : Text → Text → Option Text
  plural_template key category = coalesce (lookup_key catalogue (suffixed key category)) (
      coalesce (lookup_key catalogue (suffixed key other))
        (coalesce (lookup_key en (suffixed key category)) (lookup_key en (suffixed key other))))

  -- `plural`, with the category that the language's plural rules select for the count and the
  -- count as a text. A `count` among the values comes first.
  unfoldable pub plural : Text → Text → Text → Vars → Text
  plural key category count vars =
      shown inherited key (plural_template key category)
        (some (vars ++ ((units "count", count) ∷ [])))
