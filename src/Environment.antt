-- ===== src/Environment.antt =====
-- frontend/src/lib/environment.ts
use agent_os_test.Prelude.{
  ◌&&◌, ◌||◌, ◌≡◌, refl, ◌↔◌, Option, none, some, List, [], ◌∷◌, map, Text, text_has_eq, units,
  ◌==◌, contains, ends_with, leb, if◌then◌else◌, ◌-◌,
}

pub data DeploymentEnvironment : Type 0 where
  production staging preview local : DeploymentEnvironment

-- The strings that the type names.
abbrev pub environment_name : DeploymentEnvironment → Text
environment_name production = units "production"
environment_name staging = units "staging"
environment_name preview = units "preview"
environment_name local = units "local"

-- `PRODUCTION_HOSTS`
abbrev pub production_hosts : List Text
production_hosts = units "app.thynact.com" ∷ units "agent-os-test.pages.dev" ∷ []

abbrev pub staging_host : Text
staging_host = units "staging.thynact.com"

-- `getDeploymentEnvironment`
unfoldable pub get_deployment_environment : Text → DeploymentEnvironment
get_deployment_environment hostname =
    if contains hostname production_hosts
    then production
    else if hostname == staging_host
    then staging
    else if ends_with hostname (units ".pages.dev")
    then preview
    else if hostname == units "localhost"
        || hostname == units "127.0.0.1"
        || ends_with hostname (units ".local")
    then local
    else preview

-- `toUpperCase`, at the names above.
abbrev pub ascii_upper : Text → Text
ascii_upper s = map (λ c. if leb b'a' c && leb c b'z' then c - 32 else c) s

-- `getEnvironmentLabel`
pub get_environment_label : Text → Option Text
get_environment_label hostname = elim (get_deployment_environment hostname) [
  | production ↦ none
  | staging ↦ some (ascii_upper (environment_name staging))
  | preview ↦ some (ascii_upper (environment_name preview))
  | local ↦ some (ascii_upper (environment_name local))
]

-- There is no badge exactly in production.
pub label_none :
    (hostname : Text)
    → (get_environment_label hostname ≡ none) ↔ (get_deployment_environment hostname ≡ production)
unfolding get_environment_label
label_none hostname = label_of (get_deployment_environment hostname)
  where
    label_of :
        (e : DeploymentEnvironment)
        → (elim e as (λ _. Option Text) [
          | production ↦ none
          | staging ↦ some (ascii_upper (environment_name staging))
          | preview ↦ some (ascii_upper (environment_name preview))
          | local ↦ some (ascii_upper (environment_name local))
        ]
            ≡ none)
          ↔ (e ≡ production)
    label_of production = (λ _. refl, λ _. refl)
    label_of staging = (λ e. cc, λ e. cc)
    label_of preview = (λ e. cc, λ e. cc)
    label_of local = (λ e. cc, λ e. cc)
