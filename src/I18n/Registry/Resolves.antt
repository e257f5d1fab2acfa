-- ===== src/I18n/Registry/Resolves.antt =====
-- Every candidate resolves to a language of the registry.
use agent_os_test.Prelude.{
  ◌≡◌, ◌≢◌, refl, sym, ◌∙◌, ◌⊎◌, inl, inr, true, Option, none, some, [], ◌∷◌, Text, text_has_eq,
  text_eq, text_eq_iff, units, lookup, trim, trim_start, split, split_on, is_empty, IsAscii,
  ascii_lower, arith, Bool-cases,
}
use agent_os_test.I18n.Registry.{
  is_supported_locale, match_locale, resolve_locale, get_locale, first_part,
}

-- The codes of the languages that the program ships.
abbrev pub IsShipped : Text → Type 0
IsShipped code = (code ≡ units "en") ⊎ (code ≡ units "hi")

supported-IsShipped : (code : Text) → is_supported_locale code ≡ true → IsShipped code
unfolding is_supported_locale lookup
supported-IsShipped code h =
    ground (arith, text_eq_iff code (units "en"), text_eq_iff code (units "hi"))

shipped_supported : (code : Text) → IsShipped code → is_supported_locale code ≡ true
unfolding is_supported_locale lookup text_eq
shipped_supported code (inl e) = rw e
shipped_supported code (inr e) = rw e

match_locale-IsShipped : (normalized : Text) → IsShipped (match_locale normalized)
unfolding match_locale
match_locale-IsShipped n = elim (Bool-cases (is_supported_locale n)) [
  | inl whole ↦ rw whole (supported-IsShipped n whole)
  | inr other ↦
      let base = first_part (split b'-' n) in
      elim (Bool-cases (is_supported_locale base)) [
        | inl part ↦ rw (other, part) (supported-IsShipped base part)
        | inr neither ↦ rw (other, neither) (inl refl)
      ]
]

-- Whatever the candidate is and however it is put in lower case, the result is one of the codes
-- that the program ships.
pub resolve_locale-IsShipped :
    (to_lower_case : Text → Text) (candidate : Option Text)
    → IsShipped (resolve_locale to_lower_case candidate)
unfolding resolve_locale
resolve_locale-IsShipped lower none = inl refl
resolve_locale-IsShipped lower (some c) = elim (Bool-cases (is_empty c)) [
  | inl none_given ↦ inl (rw none_given)
  | inr given ↦ rw given (match_locale-IsShipped (lower (trim c)))
]

primary_of_shipped : (code : Text) → IsShipped code → first_part (split b'-' code) ≡ code
unfolding split split_on
primary_of_shipped code (inl e) = rw e
primary_of_shipped code (inr e) = rw e

match_locale_lem :
    (n code : Text) → IsShipped code → first_part (split b'-' n) ≡ code → match_locale n ≡ code
unfolding match_locale
match_locale_lem n code shipped primary = elim (Bool-cases (is_supported_locale n)) [
  | inl whole ↦ rw whole (sym (primary_of_shipped n (supported-IsShipped n whole)) ∙ primary)
  | inr other ↦ rw (other, primary, shipped_supported code shipped)
]

-- `toLowerCase` maps the letters A to Z as it does alone, where all units are below 128.
abbrev pub LowersAscii : (Text → Text) → Type 0
LowersAscii lower = (t : Text) → IsAscii t → lower t ≡ ascii_lower t

empty_primary : first_part (split b'-' (ascii_lower (trim []))) ≡ []
unfolding trim trim_start ascii_lower split split_on
empty_primary = refl

empty_unshipped : (code : Text) → IsShipped code → code ≢ []
empty_unshipped code (inl e) h = let bad : units "en" ≡ [] = sym e ∙ h in cc
empty_unshipped code (inr e) h = let bad : units "hi" ≡ [] = sym e ∙ h in cc

-- If ASCII texts are put in lower case as usual, an ASCII tag whose primary subtag is a shipped
-- code, in any case and between any white space, resolves to that code.
pub resolve_locale-primary :
    (lower : Text → Text) (candidate code : Text)
    → LowersAscii lower
    → IsAscii (trim candidate)
    → IsShipped code
    → first_part (split b'-' (ascii_lower (trim candidate))) ≡ code
    → resolve_locale lower (some candidate) ≡ code
unfolding resolve_locale
resolve_locale-primary lower [] code laws ascii shipped primary =
    absurd (empty_unshipped code shipped (sym primary ∙ empty_primary))
resolve_locale-primary lower (c ∷ s) code laws ascii shipped primary =
    rw (laws (trim (c ∷ s)) ascii)
      (match_locale_lem (ascii_lower (trim (c ∷ s))) code shipped primary)

-- A shipped code resolves to itself, and its definition has that code.
pub resolve_locale-shipped :
    (lower : Text → Text) (code : Text)
    → LowersAscii lower
    → IsShipped code
    → (resolve_locale lower (some code) ≡ code) × ((get_locale code).code ≡ code)
resolve_locale-shipped lower code laws (inl e) = rw e (english_resolved, english_code)
  where
    english_resolved : resolve_locale lower (some (units "en")) ≡ units "en"
    english_resolved =
        resolve_locale-primary lower (units "en") (units "en") laws ascii (inl refl) primary
      where
        ascii : IsAscii (trim (units "en"))
        ascii = unfold trim trim_start in omega arith

        primary : first_part (split b'-' (ascii_lower (trim (units "en")))) ≡ units "en"
        primary = unfold trim trim_start ascii_lower split split_on in refl

    english_code : (get_locale (units "en")).code ≡ units "en"
    english_code = unfold get_locale lookup text_eq in refl
resolve_locale-shipped lower code laws (inr e) = rw e (hindi_resolved, hindi_code)
  where
    hindi_resolved : resolve_locale lower (some (units "hi")) ≡ units "hi"
    hindi_resolved =
        resolve_locale-primary lower (units "hi") (units "hi") laws ascii (inr refl) primary
      where
        ascii : IsAscii (trim (units "hi"))
        ascii = unfold trim trim_start in omega arith

        primary : first_part (split b'-' (ascii_lower (trim (units "hi")))) ≡ units "hi"
        primary = unfold trim trim_start ascii_lower split split_on in refl

    hindi_code : (get_locale (units "hi")).code ≡ units "hi"
    hindi_code = unfold get_locale lookup text_eq in refl
