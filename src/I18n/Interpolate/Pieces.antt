-- ===== src/I18n/Interpolate/Pieces.antt =====
-- `interpolate` against a template that is given by its pieces.
use mathlib.Core.List.{append_assoc, append-nil}
use agent_os_test.Prelude.{
  ◌≡◌, ◌≢◌, refl, sym, ap, ◌∙◌, true, none, some, List, [], ◌∷◌, ◌++◌, Text, is_word, All, Option,
  lookup, text_has_eq, arith,
}
use agent_os_test.I18n.Interpolate.{Inherited, Vars, replacement, outside, inside, interpolate}

pub data Piece : Type 0 where
  lit hole : Text → Piece

-- A literal without an opening brace, or a placeholder with a name of word units.
abbrev pub IsPiece : Piece → Type 0
IsPiece (lit t) = All (λ c. c ≢ b'{') t
IsPiece (hole name) = (name ≢ []) × All (λ c. is_word c ≡ true) name

abbrev pub print_piece : Piece → Text
print_piece (lit t) = t
print_piece (hole name) = b'{' ∷ (name ++ (b'}' ∷ []))

abbrev pub print : List Piece → Text
print [] = []
print (p ∷ ps) = print_piece p ++ print ps

-- What is put in a place: the value given under the name, else the one that is inherited, else what
-- is written there.
abbrev pub value_or : Text → Option Text → Option Text → Text
value_or written (some value) below = value
value_or written none (some value) = value
value_or written none none = written

abbrev pub fill_piece : Inherited → Vars → Piece → Text
fill_piece inherited vars (lit t) = t
fill_piece inherited vars (hole name) =
    value_or (print_piece (hole name)) (lookup name vars) (inherited name)

abbrev pub fill : Inherited → Vars → List Piece → Text
fill inherited vars [] = []
fill inherited vars (p ∷ ps) = fill_piece inherited vars p ++ fill inherited vars ps

module _ (inherited : Inherited) (vars : Vars) where
  outside-lit :
      (t s : Text)
      → All (λ c. c ≢ b'{') t
      → outside inherited vars (t ++ s) ≡ t ++ outside inherited vars s
  unfolding outside
  outside-lit [] s h = refl
  outside-lit (c ∷ t) s (n, h) = ground (arith, outside-lit t s h)

  inside-word :
      (word w s : Text)
      → All (λ c. is_word c ≡ true) w
      → inside inherited vars word (w ++ s) ≡ inside inherited vars (word ++ w) s
  unfolding inside
  inside-word word [] s h = ap (λ v. inside inherited vars v s) (sym (append-nil word))
  inside-word word (c ∷ w) s (k, h) =
      rw (k, inside)
        (inside-word (word ++ (c ∷ [])) w s h
          ∙ ap (λ v. inside inherited vars v s) (append_assoc word (c ∷ []) w))

  replacement_lem :
      (name : Text) → replacement inherited vars name ≡ fill_piece inherited vars (hole name)
  replacement_lem name = ground arith

  inside-close :
      (word s : Text)
      → word ≢ []
      → inside inherited vars word (b'}' ∷ s)
        ≡ fill_piece inherited vars (hole word) ++ outside inherited vars s
  unfolding inside
  inside-close [] s h = absurd (h refl)
  inside-close (c ∷ word) s h = ap (λ t. t ++ outside inherited vars s) (replacement_lem (c ∷ word))

  outside-piece :
      (p : Piece) (s : Text)
      → IsPiece p
      → outside inherited vars (print_piece p ++ s)
        ≡ fill_piece inherited vars p ++ outside inherited vars s
  unfolding outside
  outside-piece (lit t) s h = outside-lit t s h
  outside-piece (hole name) s (n, h) =
      ap (inside inherited vars []) (append_assoc name (b'}' ∷ []) s)
      ∙ inside-word [] name (b'}' ∷ s) h
      ∙ inside-close name s n

  outside-print :
      (ps : List Piece)
      → All IsPiece ps
      → outside inherited vars (print ps) ≡ fill inherited vars ps
  unfolding outside
  outside-print [] h = refl
  outside-print (p ∷ ps) (h, k) =
      outside-piece p (print ps) h ∙ ap (λ t. fill_piece inherited vars p ++ t) (outside-print ps k)

-- A template that is written from literals without an opening brace and placeholders with names
-- of word units gives the literals and the values of the placeholders, in order: a placeholder
-- gives the value under its name, else what the object inherits under it, else it stays as it is
-- written. Without values a template stays as it is.
pub interpolate-print :
    (inherited : Inherited) (vars : Vars) (ps : List Piece)
    → All IsPiece ps
    → (interpolate inherited (print ps) (some vars) ≡ fill inherited vars ps)
      × (interpolate inherited (print ps) none ≡ print ps)
unfolding interpolate
interpolate-print inherited vars ps h = (outside-print inherited vars ps h, refl)
