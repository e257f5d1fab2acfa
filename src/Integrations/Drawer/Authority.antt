-- ===== src/Integrations/Drawer/Authority.antt =====
-- The capabilities that frontend/src/components/integrations/ConnectorDrawer.tsx lists.
use mathlib.Core.List.{Memᴰ}
use agent_os_test.Prelude.{
  ◌≡◌, refl, ◌↔◌, ◌+◌, none, some, List, [], ◌∷◌, Text, ◌==◌, filter, length, Mem_filter, arith,
}
use agent_os_test.Types.Connectors.{CapabilityRisk, read, write, high_risk, CapabilityDetail}
use agent_os_test.I18n.Interpolate.{Inherited, interpolate}
use agent_os_test.I18n.Catalogue.{lookup_key, translate}
use agent_os_test.I18n.Locales.{catalogue_of}
use agent_os_test.I18n.Locales.En.{en}
use agent_os_test.I18n.Locales.Translated.{shipped-HasSame}
use agent_os_test.I18n.Registry.Resolves.{IsShipped}
use agent_os_test.Api.Client.{or_text}
use agent_os_test.Hub.{UnifiedConnector}
use agent_os_test.Integrations.Drawer.{
  risk_has_eq, authority_group, capability_key, capability_label,
}

count_risks :
    (ds : List CapabilityDetail)
    → length (filter (λ d. d.risk == read) ds)
        + (length (filter (λ d. d.risk == write) ds)
            + length (filter (λ d. d.risk == high_risk) ds))
      ≡ length ds
count_risks [] = omega arith
count_risks (d ∷ ds) = ground (
  arith,
  count_risks ds,
  risk_has_eq.is_same_iff d.risk read,
  risk_has_eq.is_same_iff d.risk write,
  risk_has_eq.is_same_iff d.risk high_risk,
)

-- Every capability of a connector is listed in the group of its risk and in no other, and the three
-- groups list as many as the connector has.
pub authority_group-once :
    (c : UnifiedConnector)
    → ((risk : CapabilityRisk) (d : CapabilityDetail)
        → Memᴰ d (authority_group risk c) ↔ (Memᴰ d c.entry.capability_details × (d.risk ≡ risk)))
      × (length (authority_group read c)
            + (length (authority_group write c) + length (authority_group high_risk c))
          ≡ length c.entry.capability_details)
authority_group-once c = (
  λ risk d.
      let (there, back) = Mem_filter (λ d. d.risk == risk) c.entry.capability_details d in
      let (to, from) = risk_has_eq.is_same_iff d.risk risk in
      (λ m. let (n, e) = there m in (n, to e), λ (n, e). back (n, from e)),
  count_risks c.entry.capability_details,
)

-- In a language that the program ships, a capability is listed under the language's own text for
-- its id, or under the label of the backend if that text is empty. Where no catalogue has a text
-- for its id, it is listed under the key of the text, whatever label the backend gives.
pub capability_label-own :
    (inherited : Inherited) (code : Text) (d : CapabilityDetail)
    → IsShipped code
    → ((s : Text)
        → lookup_key en (capability_key d.id) ≡ some s
        → (t : Text) × (lookup_key (catalogue_of code) (capability_key d.id) ≡ some t)
          × (capability_label inherited (catalogue_of code) d ≡ or_text t d.label))
      × (lookup_key (catalogue_of code) (capability_key d.id) ≡ none
          → lookup_key en (capability_key d.id) ≡ none
          → capability_label inherited (catalogue_of code) d ≡ capability_key d.id)
unfolding capability_label interpolate translate
capability_label-own inherited code d shipped = (
  λ s english.
      let (t, own, same) = shipped-HasSame code (capability_key d.id) shipped s english in
      (t, own, rw own refl),
  λ missing absent. rw (missing, absent) refl,
)
