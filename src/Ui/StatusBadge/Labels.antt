-- ===== src/Ui/StatusBadge/Labels.antt =====
-- What a badge of frontend/src/components/ui/StatusBadge.tsx says.
use agent_os_test.Prelude.{
  ◌≡◌, refl, inl, inr, Bool, true, false, ◌&&◌, none, some, List, [], ◌∷◌, Text, text_has_eq,
  text_eq, ◌==◌, lookup, split, split_on, Bool-cases, And-cases, is_some, is_some_lem, none_elim,
}
use agent_os_test.I18n.Interpolate.{Inherited, interpolate}
use agent_os_test.I18n.Catalogue.{child, lookup_key, translate}
use agent_os_test.I18n.Locales.{catalogue_of}
use agent_os_test.I18n.Locales.En.{en}
use agent_os_test.I18n.Locales.Translated.{shipped-HasSame}
use agent_os_test.I18n.Registry.Resolves.{IsShipped}
use agent_os_test.Ui.StatusBadge.{Entry, config, neutral, badge_key, status_badge}

abbrev have_labels : List (Text × Entry) → Bool
have_labels [] = true
have_labels ((status, e) ∷ rows) = is_some (lookup_key en (badge_key status)) && have_labels rows

config_has_labels : have_labels config ≡ true
unfolding lookup_key child text_eq split split_on
config_has_labels = refl

row_has_label :
    (rows : List (Text × Entry)) (status : Text) (e : Entry)
    → have_labels rows ≡ true
    → lookup status rows ≡ some e
    → (s : Text) × (lookup_key en (badge_key status) ≡ some s)
unfolding lookup
row_has_label [] status e h found = none_elim found
row_has_label ((key, f) ∷ rows) status e h found =
    let (here, rest) = And-cases (is_some (lookup_key en (badge_key key))) (have_labels rows) h in
    elim (Bool-cases (status == key)) [
      | inl same ↦ rw ((text_has_eq.is_same_iff status key).0 same) (is_some_lem _ here)
      | inr other ↦ row_has_label rows status e rest (rw other at found)
    ]

-- In a language that the program ships, a badge of a configured status has its entry and is
-- labelled by the language's own text for it. A status that the configuration neither has nor
-- inherits is shown as it is, in the neutral tone.
pub status_badge-label :
    (inherited : Inherited) (code status : Text)
    → IsShipped code
    → ((e : Entry)
        → lookup status config ≡ some e
        → (t : Text) × (lookup_key (catalogue_of code) (badge_key status) ≡ some t)
          × (status_badge inherited (catalogue_of code) status ≡ record { entry = e; label = t }))
      × (lookup status config ≡ none
          → inherited status ≡ none
          → status_badge inherited (catalogue_of code) status
            ≡ record { entry = record { tone = some neutral; pulse = false }; label = status })
unfolding status_badge interpolate translate
status_badge-label inherited code status shipped = (
  λ e found.
      let (s, english) = row_has_label config status e config_has_labels found in
      let (t, own, same) = shipped-HasSame code (badge_key status) shipped s english in
      (t, own, rw (found, own) refl),
  λ missing none_inherited. rw (missing, none_inherited),
)
