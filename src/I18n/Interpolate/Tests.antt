-- ===== src/I18n/Interpolate/Tests.antt =====
-- Runs of `interpolate`.
use agent_os_test.Prelude.{◌≡◌, refl, none, some, [], ◌∷◌, units, text_eq, lookup, List, All, arith}
use agent_os_test.I18n.Interpolate.Pieces.{
  Piece, lit, hole, IsPiece, print, fill, interpolate-print,
}
use agent_os_test.I18n.Interpolate.{Vars, interpolate, outside, inside}

abbrev vars : Vars
vars = (units "count", units "3") ∷ (units "name", units "Ann") ∷ []

runs : Unit {0}
unfolding interpolate outside inside text_eq lookup
runs = tt

two :
    interpolate (λ _. none) (units "{name} has {count} tasks") (some vars) ≡ units "Ann has 3 tasks"
unfolding runs
two = refl

odd :
    interpolate (λ _. none) (units "{ {name}} {} {nam e} {x} {na{count}") (some vars)
    ≡ units "{ Ann} {} {nam e} {x} {na3"
unfolding runs
odd = refl

abbrev pieces : List Piece
pieces = hole (units "name") ∷ (lit (units " has ") ∷ (hole (units "count") ∷ []))

pieces-IsPiece : All IsPiece pieces
pieces-IsPiece = (
  ((λ e. cc), (refl, (refl, (refl, (refl, tt))))),
  (omega arith, (((λ e. cc), (refl, (refl, (refl, (refl, (refl, tt)))))), tt)),
)

interpolate-print_example :
    (interpolate (λ _. none) (print pieces) (some vars) ≡ fill (λ _. none) vars pieces)
    × (interpolate (λ _. none) (print pieces) none ≡ print pieces)
interpolate-print_example = interpolate-print (λ _. none) vars pieces pieces-IsPiece
