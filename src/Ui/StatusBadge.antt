-- ===== src/Ui/StatusBadge.antt =====
-- The badge of a status: frontend/src/components/ui/StatusBadge.tsx.
pub mod Labels
use Prim.Native.String.{String}
use agent_os_test.Prelude.{
  Bool, true, false, Option, none, some, List, [], ◌∷◌, ◌++◌, Text, text_has_eq, units, lookup,
  if◌then◌else◌,
}
use agent_os_test.I18n.Interpolate.{Inherited}
use agent_os_test.I18n.Catalogue.{Catalogue, translate}
use agent_os_test.I18n.Locales.En.{en}

pub data Tone : Type 0 where
  neutral gold green red amber : Tone

pub record Entry : Type 0 where
  pub tone : Option Tone
  pub pulse : Bool

abbrev steady : Tone → Entry
steady tone = record { tone = some tone; pulse = false }

abbrev pulsing : Tone → Entry
pulsing tone = record { tone = some tone; pulse = true }

abbrev row : String → Entry → Text × Entry
row status e = (units status, e)

-- `config`, whose keys are `StatusKind`.
abbrev pub config : List (Text × Entry)
config =
    row "pending" (steady neutral)
    ∷ row "running" (pulsing gold)
    ∷ row "completed" (steady green)
    ∷ row "succeeded" (steady green)
    ∷ row "failed" (steady red)
    ∷ row "rejected" (steady red)
    ∷ row "paused" (steady amber)
    ∷ row "skipped" (steady neutral)
    ∷ row "waiting_approval" (pulsing amber)
    ∷ row "ok" (steady green)
    ∷ row "healthy" (steady green)
    ∷ row "unconfigured" (steady neutral)
    ∷ row "unavailable" (steady red)
    ∷ row "degraded" (steady amber)
    ∷ row "connected" (pulsing green)
    ∷ row "configured" (steady gold)
    ∷ row "needs_setup" (steady amber)
    ∷ row "available" (steady neutral)
    ∷ row "error" (steady red)
    ∷ row "disabled" (steady neutral)
    ∷ []

pub record Badge : Type 0 where
  pub entry : Entry
  pub label : Text

-- What an object inherits has no tone and no pulse.
abbrev no_entry : Entry
no_entry = record { tone = none; pulse = false }

-- `config[status] ?? { tone: "neutral" }`, from the own and the inherited property.
abbrev pub entry_of : Option Entry → Option Text → Entry
entry_of (some e) inherited = e
entry_of none (some f) = no_entry
entry_of none none = steady neutral

-- `status in config`
abbrev pub is_in : Option Entry → Option Text → Bool
is_in (some e) inherited = true
is_in none (some f) = true
is_in none none = false

abbrev pub badge_key : Text → Text
badge_key status = units "badges." ++ status

-- `StatusBadge`
unfoldable pub status_badge : Inherited → Catalogue → Text → Badge
status_badge inherited catalogue status = record {
  entry = entry_of (lookup status config) (inherited status);
  label =
      if is_in (lookup status config) (inherited status)
      then translate inherited catalogue en (badge_key status) none
      else status;
}
