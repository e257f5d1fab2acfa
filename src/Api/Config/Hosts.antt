-- ===== src/Api/Config/Hosts.antt =====
-- Which backend a host talks to, against the environment that the same host is labelled with.
use agent_os_test.Prelude.{
  ◌≡◌, ◌≢◌, refl, sym, ◌∙◌, ◌↔◌, inl, inr, true, false, none, some, Text, text_has_eq, text_eq,
  text_eq_iff, contains, arith, Bool-cases, if◌then◌else◌,
}
use agent_os_test.Environment.{
  production, get_deployment_environment, get_environment_label, label_none,
}
use agent_os_test.Api.Config.{
  production_hosts, production_api, staging_api, compute_api_base_url, Page, default_base_url,
  get_api_base_url, base_url_key,
}
use agent_os_test.Browser.Location.{Location}
use agent_os_test.Browser.Storage.{Storage, returned, get_item}

compute_of_contains :
    (h : Text)
    → compute_api_base_url h ≡ (if contains h production_hosts then production_api else staging_api)
unfolding compute_api_base_url
compute_of_contains h = ground arith

environment_of_contains :
    (h : Text) → (get_deployment_environment h ≡ production) ↔ (contains h production_hosts ≡ true)
unfolding get_deployment_environment
environment_of_contains h = ground arith

apis_differ : production_api ≢ staging_api
unfolding text_eq
apis_differ e = let same : text_eq production_api staging_api ≡ true = (text_eq_iff _ _).1 e in cc

computed_of_environment :
    (h : Text)
    → ((compute_api_base_url h ≡ production_api) ↔ (get_deployment_environment h ≡ production))
      × ((compute_api_base_url h ≡ staging_api) ↔ (get_deployment_environment h ≢ production))
computed_of_environment h =
    let e = compute_of_contains h in
    let (there, back) = environment_of_contains h in
    elim (Bool-cases (contains h production_hosts)) [
      | inl listed ↦
          let to : compute_api_base_url h ≡ production_api = rw listed at e in
          (
            (λ _. back listed, λ _. to),
            (λ f. absurd (apis_differ (sym to ∙ f)), λ n. absurd (n (back listed))),
          )
      | inr other ↦
          let to : compute_api_base_url h ≡ staging_api = rw other at e in
          let elsewhere : get_deployment_environment h ≢ production =
            λ p. let bad : false ≡ true = sym other ∙ there p in cc in
          (
            (λ f. absurd (apis_differ (sym f ∙ to)), λ p. absurd (elsewhere p)),
            (λ _. elsewhere, λ _. to),
          )
    ]

-- A host has no badge exactly if it talks to the production backend.
pub label_of_api :
    (h : Text) → (get_environment_label h ≡ none) ↔ (compute_api_base_url h ≡ production_api)
label_of_api h =
    let ((there, back), _) = computed_of_environment h in
    let (to, from) = label_none h in (λ e. back (to e), λ e. from (there e))

-- A built page on a host that is not a production host, with no address of its own in the build,
-- has the staging backend for its default.
pub default-staging :
    (p : Page) (l : Location)
    → p.location ≡ some l
    → p.dev ≡ false
    → p.vite_api_base_url ≡ none
    → get_deployment_environment l.hostname ≢ production
    → default_base_url p ≡ staging_api
unfolding default_base_url
default-staging p l at_host built unset n =
    rw (unset, built, at_host) ((computed_of_environment l.hostname).1.1 n)

get_api_base_url-default :
    (p : Page) (l : Location) (st : Storage)
    → p.location ≡ some l
    → p.dev ≡ false
    → p.vite_api_base_url ≡ none
    → get_item st base_url_key ≡ returned none
    → get_api_base_url p st ≡ compute_api_base_url l.hostname
unfolding get_api_base_url default_base_url
get_api_base_url-default p l st at_host built unset empty =
    rw (empty, get_api_base_url) (rw (unset, built, at_host) refl)

-- The address in use of a built page, where neither the build nor the storage names an address: it
-- is that of the production backend exactly if the page's host is labelled as production, and that
-- of the staging backend exactly if it is not.
pub api_of_environment :
    (p : Page) (l : Location) (st : Storage)
    → p.location ≡ some l
    → p.dev ≡ false
    → p.vite_api_base_url ≡ none
    → get_item st base_url_key ≡ returned none
    → ((get_api_base_url p st ≡ production_api)
        ↔ (get_deployment_environment l.hostname ≡ production))
      × ((get_api_base_url p st ≡ staging_api)
          ↔ (get_deployment_environment l.hostname ≢ production))
api_of_environment p l st at_host built unset empty =
    rw (get_api_base_url-default p l st at_host built unset empty)
      (computed_of_environment l.hostname)
