-- ===== src/I18n/Detect/Chooses.antt =====
-- Which language is chosen, and that the document says so.
use mathlib.Core.List.{Memᴰ}
use mathlib.Core.List.Memᴰ
use agent_os_test.Prelude.{
  ◌≡◌, refl, sym, ◌∙◌, ◌↔◌, inl, inr, true, false, Option, none, some, List, [], ◌∷◌, Text,
  text_has_eq, text_eq, text_eq_iff, eq_refl, units, ◌==◌, is_empty, Bool-cases, if◌then◌else◌,
}
use agent_os_test.Browser.Storage.{
  Storage, Attempt, returned, thrown, get_item, Takes, get_item-set_item,
}
use agent_os_test.I18n.Registry.{fallback_locale, resolve_locale}
use agent_os_test.I18n.Registry.Resolves.{
  IsShipped, LowersAscii, resolve_locale-IsShipped, resolve_locale-shipped,
}
use agent_os_test.I18n.Detect.{
  storage_key, Navigator, candidates, first_resolved, from_browser, detect_initial_locale,
  apply_document_locale, Provider, mount, set_locale,
}

module _ (lower : Text → Text) where
  first_resolved-IsShipped : (ls : List Text) → IsShipped (first_resolved lower ls)
  unfolding first_resolved
  first_resolved-IsShipped [] = inl refl
  first_resolved-IsShipped (c ∷ ls) =
      elim (Bool-cases (resolve_locale lower (some c) == fallback_locale)) [
        | inl english ↦ rw english (first_resolved-IsShipped ls)
        | inr other ↦ rw other (resolve_locale-IsShipped lower (some c))
      ]

  from_browser-IsShipped : (n : Option Navigator) → IsShipped (from_browser lower n)
  from_browser-IsShipped none = inl refl
  from_browser-IsShipped (some n) = first_resolved-IsShipped (candidates n)

  pub detect-IsShipped :
      (st : Storage) (n : Option Navigator) → IsShipped (detect_initial_locale lower st n)
  unfolding detect_initial_locale
  detect-IsShipped st n = of_item (get_item st storage_key) refl
    where
      of_stored :
          (s : Text)
          → IsShipped (if is_empty s then from_browser lower n else resolve_locale lower (some s))
      of_stored [] = from_browser-IsShipped n
      of_stored (c ∷ s) = resolve_locale-IsShipped lower (some (c ∷ s))

      of_item :
          (r : Attempt (Option Text))
          → get_item st storage_key ≡ r
          → IsShipped (detect_initial_locale lower st n)
      of_item thrown e = rw (e, detect_initial_locale) (from_browser-IsShipped n)
      of_item (returned none) e = rw (e, detect_initial_locale) (from_browser-IsShipped n)
      of_item (returned (some s)) e = rw (e, detect_initial_locale) (of_stored s)

  -- The language is one that the program ships, and the document's root names it.
  pub record IsTruthful (p : Provider) : Type 0 where
    pub shipped : IsShipped p.locale
    pub named : p.root.lang ≡ p.locale

  root_named :
      (code : Text) → LowersAscii lower → IsShipped code → (apply_document_locale code).lang ≡ code
  unfolding apply_document_locale
  root_named code laws shipped = (resolve_locale-shipped lower code laws shipped).1

  -- If ASCII texts are put in lower case as usual, the first render gives a truthful state, and so
  -- does every switch, to any code.
  pub mount-IsTruthful :
      LowersAscii lower
      → (st : Storage) (n : Option Navigator) (code : Text) (p : Provider)
      → IsTruthful (mount lower st n) × IsTruthful (set_locale lower code p)
  unfolding mount set_locale
  mount-IsTruthful laws st n code p = (
    record { shipped = detect-IsShipped st n; named = root_named _ laws (detect-IsShipped st n) },
    record {
      shipped = resolve_locale-IsShipped lower (some code);
      named = root_named _ laws (resolve_locale-IsShipped lower (some code));
    },
  )

  detect_of_stored :
      (st : Storage) (n : Option Navigator) (s : Text)
      → IsShipped s
      → get_item st storage_key ≡ returned (some s)
      → detect_initial_locale lower st n ≡ resolve_locale lower (some s)
  unfolding detect_initial_locale
  detect_of_stored st n s shipped e =
      rw (e, detect_initial_locale) (rw (shipped_nonempty s shipped))
    where
      shipped_nonempty : (s : Text) → IsShipped s → is_empty s ≡ false
      shipped_nonempty s (inl e) = rw e
      shipped_nonempty s (inr e) = rw e

  -- If ASCII texts are put in lower case as usual and the storage takes the choice, a page that is
  -- loaded after a switch starts with the language that was switched to, whatever the browser's
  -- languages are.
  pub mount-set_locale :
      LowersAscii lower
      → (code : Text) (p : Provider) (n : Option Navigator)
      → Takes p.local_storage storage_key (resolve_locale lower (some code))
      → (mount lower (set_locale lower code p).local_storage n).locale
        ≡ (set_locale lower code p).locale
  unfolding mount set_locale
  mount-set_locale laws code p n h =
      let shipped = resolve_locale-IsShipped lower (some code) in
      let read =
        get_item-set_item p.local_storage storage_key storage_key _ h ∙ rw (eq_refl storage_key) in
      detect_of_stored _ n _ shipped read
      ∙ (resolve_locale-shipped lower (resolve_locale lower (some code)) laws shipped).0

  -- The browser's languages give Hindi exactly if one of them resolves to it: a preference for
  -- English that stands before is passed over.
  pub first_resolved-hindi :
      (ls : List Text)
      → (first_resolved lower ls ≡ units "hi")
        ↔ ((c : Text) × Memᴰ c ls × (resolve_locale lower (some c) ≡ units "hi"))
  unfolding first_resolved text_eq
  first_resolved-hindi [] = (
    λ e. let bad : text_eq (units "en") (units "hi") ≡ true = (text_eq_iff _ _).1 e in cc,
    λ (c, mem, _). elim mem [ ],
  )
  first_resolved-hindi (c ∷ ls) = elim (resolve_locale-IsShipped lower (some c)) [
    | inl english ↦
        let (there, back) = first_resolved-hindi ls in
        rw english (
          λ h. let (x, mem, e) = there h in (x, Memᴰ.tail mem, e),
          λ (x, mem, e). elim (Memᴰ.cases_cons mem) [
            | inl now ↦
                let both : resolve_locale lower (some c) ≡ units "hi" = rw now at e in
                let bad : text_eq (units "en") (units "hi") ≡ true =
                  (text_eq_iff _ _).1 (sym english ∙ both) in
                cc
            | inr later ↦ back (x, later, e)
          ],
        )
    | inr hindi ↦ rw hindi (λ _. (c, Memᴰ.head refl, hindi), λ _. refl)
  ]
