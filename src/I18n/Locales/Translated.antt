-- ===== src/I18n/Locales/Translated.antt =====
-- The texts of the languages: the catalogues of frontend/src/lib/i18n/locales against each other.
use agent_os_test.Prelude.{
  ◌≡◌, refl, true, Option, some, [], ◌∷◌, ◌++◌, inl, inr, Text, units, text_eq, lookup,
  Option-cases, ◌⊎◌,
}
use agent_os_test.Browser.Storage.{Storage}
use agent_os_test.I18n.Interpolate.{Inherited, Vars, interpolate}
use agent_os_test.I18n.Interpolate.Placeholders.{names_outside}
use agent_os_test.I18n.Registry.Resolves.{IsShipped, resolve_locale-IsShipped}
use agent_os_test.I18n.Detect.{Navigator, Provider, mount, set_locale}
use agent_os_test.I18n.Detect.Chooses.{detect-IsShipped}
use agent_os_test.I18n.Catalogue.{Catalogue, child, lookup_key, suffixed, other, translate, plural}
use agent_os_test.I18n.Catalogue.Covers.{covers_node, covers_lem, SamePlaceholders}
use agent_os_test.I18n.Locales.{catalogue_of}
use agent_os_test.I18n.Locales.En.{en}
use agent_os_test.I18n.Locales.Hi.{hi}

-- A text of the one catalogue under the key has one of the other's beside it, with the same
-- placeholders.
abbrev pub HasSame : Catalogue → Catalogue → Text → Type 0
HasSame one own key =
    (s : Text)
    → lookup_key one key ≡ some s
    → (t : Text) × (lookup_key own key ≡ some t) × SamePlaceholders s t

hi_covers_en : covers_node en (some hi) ≡ true
unfolding covers_node child text_eq names_outside
hi_covers_en = refl

en_covers_hi : covers_node hi (some en) ≡ true
unfolding covers_node child text_eq names_outside
en_covers_hi = refl

en_covers_en : covers_node en (some en) ≡ true
unfolding covers_node child text_eq names_outside
en_covers_en = refl

-- English and Hindi have texts under the same keys, and under each key the two texts have the same
-- placeholders.
pub catalogues-HasSame : (key : Text) → HasSame en hi key × HasSame hi en key
catalogues-HasSame key =
    (λ s e. covers_lem en hi key s hi_covers_en e, λ s e. covers_lem hi en key s en_covers_hi e)

-- The catalogue of a language: the English one of `en`, the Hindi one of `hi`.
abbrev pub IsOwn : Text → Catalogue → Type 0
IsOwn code own = ((code ≡ units "en") × (own ≡ en)) ⊎ ((code ≡ units "hi") × (own ≡ hi))

shipped-IsOwn : (code : Text) → IsShipped code → IsOwn code (catalogue_of code)
unfolding catalogue_of lookup text_eq
shipped-IsOwn code (inl e) = inl (e, rw e refl)
shipped-IsOwn code (inr e) = inr (e, rw e refl)

own-HasSame : (code key : Text) (own : Catalogue) → IsOwn code own → HasSame en own key
own-HasSame code key own (inl (_, e)) = rw e (λ s e. covers_lem en en key s en_covers_en e)
own-HasSame code key own (inr (_, e)) = rw e (λ s e. covers_lem en hi key s hi_covers_en e)

pub shipped-HasSame : (code key : Text) → IsShipped code → HasSame en (catalogue_of code) key
shipped-HasSame code key shipped =
    own-HasSame code key (catalogue_of code) (shipped-IsOwn code shipped)

module _ (inherited : Inherited) where
  -- The language has a catalogue of its own. A key with an English text is shown by the text of
  -- that catalogue, which has the same placeholders. A plural with an English form `_other` is shown
  -- by one of the forms of that catalogue.
  abbrev pub ShowsOwn : Text → Type 0
  ShowsOwn code =
      (own : Catalogue) × IsOwn code own
      × ((key s : Text)
          → (lookup_key en key ≡ some s
              → (t : Text) × (lookup_key own key ≡ some t)
                × SamePlaceholders s t
                × ((vars : Option Vars)
                    → translate inherited (catalogue_of code) en key vars
                      ≡ interpolate inherited t vars))
            × (lookup_key en (suffixed key other) ≡ some s
                → (category count : Text) (vars : Vars)
                → (form t : Text) × ((form ≡ suffixed key category) ⊎ (form ≡ suffixed key other))
                  × (lookup_key own form ≡ some t)
                  × (plural inherited (catalogue_of code) en key category count vars
                      ≡ interpolate inherited t (some (vars ++ ((units "count", count) ∷ []))))))

  pub shipped-ShowsOwn : (code : Text) → IsShipped code → ShowsOwn code
  unfolding translate plural
  shipped-ShowsOwn code shipped = (
    catalogue_of code,
    shipped-IsOwn code shipped,
    λ key s. (
      λ e.
          let (t, found, same) = shipped-HasSame code key shipped s e in
          (t, found, same, λ vars. rw found),
      λ e category count vars.
          elim (Option-cases (lookup_key (catalogue_of code) (suffixed key category))) [
            | inr (t, found) ↦ (suffixed key category, t, inl refl, found, rw found)
            | inl missing ↦
                let (t, found, same) = shipped-HasSame code (suffixed key other) shipped s e in
                (suffixed key other, t, inr refl, found, rw (missing, found))
          ],
    ),
  )

  -- The language that the page starts with, and the language after a switch to any code, is English
  -- or Hindi, and the program shows the text of its own catalogue for every key with an English
  -- text: in Hindi no text falls back to English, and no key is shown in place of a text.
  pub provider-ShowsOwn :
      (lower : Text → Text) (st : Storage) (n : Option Navigator) (code : Text) (p : Provider)
      → ShowsOwn (mount lower st n).locale × ShowsOwn (set_locale lower code p).locale
  unfolding mount set_locale
  provider-ShowsOwn lower st n code p = (
    shipped-ShowsOwn _ (detect-IsShipped lower st n),
    shipped-ShowsOwn _ (resolve_locale-IsShipped lower (some code)),
  )
