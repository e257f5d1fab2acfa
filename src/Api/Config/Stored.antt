-- ===== src/Api/Config/Stored.antt =====
-- The address and the key that are kept in the session storage.
use agent_os_test.Prelude.{
  ◌≡◌, refl, ap, ◌∙◌, ◌⊎◌, inl, inr, Bool, ◌&&◌, true, false, not, none, some, Option, [], ◌∷◌,
  ◌==◌, Text, text_has_eq, text_eq, text_eq_iff, eq_refl, contains, units, is_empty, arith,
  Bool-cases, And-cases, Option-cases, if◌then◌else◌,
}
use agent_os_test.Browser.Location.{Location}
use agent_os_test.Browser.Storage.{
  Storage, Attempt, returned, thrown, get_item, remove_item, or_else, Takes, get_item-set_item,
  get_item-remove_item, get_item-unavailable, set_item-available, set_item-refused,
  remove_item-refused,
}
use agent_os_test.Api.Config.{
  base_url_key, api_key_key, Page, https, loopback_hosts, default_base_url, is_usable_override,
  get_api_base_url, set_api_base_url, get_api_key, set_api_key, is_api_configured, reset_api_config,
}

-- An address that parses to a secure one, on a host that the program does not know as loopback.
abbrev pub IsReachable : Page → Text → Type 0
IsReachable p url =
    (u : Location) × (p.parse_url url ≡ some u)
    × (u.protocol ≡ https)
    × (contains u.hostname loopback_hosts ≡ false)

usable-IsReachable :
    (p : Page) (l : Location) (url : Text)
    → p.location ≡ some l
    → l.protocol ≡ https
    → is_usable_override p url ≡ true
    → IsReachable p url
unfolding is_usable_override
usable-IsReachable p l url at_host secure h = elim (Option-cases (p.parse_url url)) [
  | inl bad ↦ absurd (ground (arith, text_eq_iff l.protocol https))
  | inr (u, parsed) ↦ (
    u,
    parsed,
    ground (arith, text_eq_iff l.protocol https, text_eq_iff u.protocol https),
    ground (arith, text_eq_iff l.protocol https, text_eq_iff u.protocol https),
  )
]

-- What is read behind the test of the stored value.
abbrev from_stored : Page → Option Text → Text
from_stored p none = default_base_url p
from_stored p (some stored) =
    if not (is_empty stored) && is_usable_override p stored then stored else default_base_url p

get_of_item :
    (p : Page) (st : Storage) (o : Option Text)
    → get_item st base_url_key ≡ returned o
    → get_api_base_url p st ≡ from_stored p o
unfolding get_api_base_url
get_of_item p st none h = rw (h, get_api_base_url)
get_of_item p st (some stored) h = rw (h, get_api_base_url)

key_of_item :
    (st st' : Storage)
    → get_item st api_key_key ≡ get_item st' api_key_key
    → get_api_key st ≡ get_api_key st'
unfolding get_api_key
key_of_item st st' h = rw (h, get_api_key)

key_read :
    (st : Storage) (key : Text)
    → get_item st api_key_key ≡ returned (some key)
    → get_api_key st ≡ key
unfolding get_api_key
key_read st key h = rw (h, get_api_key)

key_removed :
    (st : Storage)
    → st.available ≡ true
    → get_api_key (or_else st (remove_item st api_key_key)) ≡ []
unfolding get_api_key
key_removed st h =
    let gone : get_item (or_else st (remove_item st api_key_key)) api_key_key ≡ returned none =
      get_item-remove_item st api_key_key api_key_key h ∙ rw (eq_refl api_key_key) in
    rw (gone, get_api_key)

if_same : (b : Bool) (t : Text) → (if b then t else t) ≡ t
if_same true t = refl
if_same false t = refl

configured_of_key :
    (st : Storage) (key : Text) → get_api_key st ≡ key → is_api_configured st ≡ not (is_empty key)
unfolding is_api_configured
configured_of_key st key h = rw h

url_of_item :
    (p : Page) (st st' : Storage)
    → get_item st base_url_key ≡ get_item st' base_url_key
    → get_api_base_url p st ≡ get_api_base_url p st'
unfolding get_api_base_url
url_of_item p st st' h = rw (h, get_api_base_url)

keys_differ : (base_url_key == api_key_key) ≡ false
unfolding text_eq
keys_differ = refl

keys_differ' : (api_key_key == base_url_key) ≡ false
unfolding text_eq
keys_differ' = refl

-- On a secure page the address is the default, or one that parses to a secure address on a host
-- that is not in the list of loopback hosts, whatever is in the storage.
pub get_api_base_url-IsReachable :
    (p : Page) (l : Location) (st : Storage)
    → p.location ≡ some l
    → l.protocol ≡ https
    → (get_api_base_url p st ≡ default_base_url p) ⊎ IsReachable p (get_api_base_url p st)
get_api_base_url-IsReachable p l st at_host secure = from (get_item st base_url_key) refl
  where
    stored_IsReachable :
        (o : Option Text) → (from_stored p o ≡ default_base_url p) ⊎ IsReachable p (from_stored p o)
    stored_IsReachable none = inl refl
    stored_IsReachable (some s) = elim (Bool-cases (not (is_empty s) && is_usable_override p s)) [
      | inl ok ↦ rw ok (inr (usable-IsReachable p l s at_host secure (And-cases _ _ ok).1))
      | inr refused ↦ inl (rw refused)
    ]

    from :
        (r : Attempt (Option Text))
        → get_item st base_url_key ≡ r
        → (get_api_base_url p st ≡ default_base_url p) ⊎ IsReachable p (get_api_base_url p st)
    from thrown e = inl (unfold get_api_base_url in rw (e, get_api_base_url))
    from (returned o) e = rw (get_of_item p st o e) (stored_IsReachable o)

-- If the storage takes an address, it is the one that is used, unless it is empty or unusable from
-- the page: then the default is. The key is not touched.
pub get_api_base_url-set_api_base_url :
    (p : Page) (st : Storage) (url : Text)
    → Takes st base_url_key url
    → (get_api_base_url p (set_api_base_url url st)
        ≡ (if not (is_empty url) && is_usable_override p url then url else default_base_url p))
      × (get_api_key (set_api_base_url url st) ≡ get_api_key st)
unfolding set_api_base_url
get_api_base_url-set_api_base_url p st url h = (
  get_of_item p _ (some url)
      (get_item-set_item st base_url_key base_url_key url h ∙ rw (eq_refl base_url_key)),
  key_of_item _ _ (get_item-set_item st base_url_key api_key_key url h ∙ rw keys_differ'),
)

set_api_key-empty :
    (p : Page) (st : Storage)
    → st.available ≡ true
    → (get_api_key (set_api_key [] st) ≡ [])
      × (is_api_configured (set_api_key [] st) ≡ false)
      × (get_api_base_url p (set_api_key [] st) ≡ get_api_base_url p st)
unfolding set_api_key
set_api_key-empty p st h =
    let read = key_removed st h in
    (
      read,
      configured_of_key _ _ read,
      url_of_item p _ _ (get_item-remove_item st api_key_key base_url_key h ∙ rw keys_differ),
    )

-- A key that the storage takes is read back, and an empty one removes it. The address is not
-- touched.
pub get_api_key-set_api_key :
    (p : Page) (st : Storage) (key : Text)
    → Takes st api_key_key key
    → (get_api_key (set_api_key key st) ≡ key)
      × (is_api_configured (set_api_key key st) ≡ not (is_empty key))
      × (get_api_base_url p (set_api_key key st) ≡ get_api_base_url p st)
unfolding set_api_key
get_api_key-set_api_key p st [] h = set_api_key-empty p st h.0
get_api_key-set_api_key p st (c ∷ key) h =
    let read =
      key_read _ _
        (get_item-set_item st api_key_key api_key_key (c ∷ key) h ∙ rw (eq_refl api_key_key)) in
    (
      read,
      configured_of_key _ _ read,
      url_of_item p _ _
          (get_item-set_item st api_key_key base_url_key (c ∷ key) h ∙ rw keys_differ),
    )

set_api_base_url-available :
    (st : Storage) (url : Text) → (set_api_base_url url st).available ≡ st.available
unfolding set_api_base_url
set_api_base_url-available st url = (set_item-available st base_url_key url).0

-- After a reset that the storage takes, the default address is used and no key is configured.
pub reset_api_config_lem :
    (p : Page) (st : Storage)
    → Takes st base_url_key (default_base_url p)
    → (get_api_base_url p (reset_api_config p st) ≡ default_base_url p)
      × (is_api_configured (reset_api_config p st) ≡ false)
unfolding reset_api_config
reset_api_config_lem p st h =
    let url = default_base_url p in
    let set = set_api_base_url url st in
    let reachable : set.available ≡ true = set_api_base_url-available st url ∙ h.0 in
    let (_, unset, same) = set_api_key-empty p set reachable in
    let (used, _) = get_api_base_url-set_api_base_url p st url h in
    (same ∙ used ∙ if_same (not (is_empty url) && is_usable_override p url) url, unset)

-- Where the storage cannot be reached, the default address is used and no key is configured, also
-- after an attempt to set them.
pub unavailable_default :
    (p : Page) (st : Storage) (url key : Text)
    → st.available ≡ false
    → (get_api_base_url p (set_api_base_url url st) ≡ default_base_url p)
      × (is_api_configured (set_api_key key st) ≡ false)
unavailable_default p st url key h =
    let unset : set_api_base_url url st ≡ st =
      unfold set_api_base_url in set_item-refused st base_url_key url (λ t. cc t.0) in
    let url_thrown = get_item-unavailable st base_url_key h in
    let key_thrown = get_item-unavailable st api_key_key h in
    (
      rw unset (unfold get_api_base_url in rw (url_thrown, get_api_base_url)),
      configured_of_key _ []
          (key_unset key h ∙ (unfold get_api_key in rw (key_thrown, get_api_key))),
    )
  where
    key_unset :
        (key : Text) → st.available ≡ false → get_api_key (set_api_key key st) ≡ get_api_key st
    key_unset [] h = ap get_api_key (unfold set_api_key in remove_item-refused st api_key_key h)
    key_unset (c ∷ key) h =
        ap get_api_key
          (unfold set_api_key in set_item-refused st api_key_key (c ∷ key) (λ t. cc t.0))

-- From a secure page an override on the IPv6 loopback address is used: its parsed host name has
-- brackets, `[::1]`, and the list of loopback hosts has the name without them.
pub loopback_accepted :
    (p : Page) (l : Location) (url : Text)
    → p.location ≡ some l
    → l.protocol ≡ https
    → p.parse_url url ≡ some (record { protocol = https; hostname = units "[::1]" })
    → is_usable_override p url ≡ true
unfolding is_usable_override text_eq
loopback_accepted p l url at_host secure parsed =
    rw (at_host, is_usable_override) (rw (secure, parsed))
