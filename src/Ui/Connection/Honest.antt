-- ===== src/Ui/Connection/Honest.antt =====
-- When frontend/src/components/layout/ConnectionStatus.tsx shows the API as online.
use agent_os_test.Prelude.{
  ◌≡◌, refl, ◌↔◌, Bool, ◌&&◌, true, false, not, Option, some, is_some, List, [], ◌∷◌, none_elim,
  some_inj, Text, text_has_eq, is_empty, Bool-cases, Option-cases, inl, inr, units, And-cases,
  is_some_lem, arith,
}
use agent_os_test.Types.System.{HealthResponse}
use agent_os_test.Ui.Connection.{
  QueryResult, online, connecting, offline, has_warnings, is_unwell, reachable, degraded, state_of,
  label_of, asks_for_key,
}

abbrev pub HasWarnings : HealthResponse → Type 0
HasWarnings h = (w : Text) × (ws : List Text) × (h.warnings ≡ some (w ∷ ws))

-- The query has answered, with the status `ok` and without warnings.
abbrev pub IsWell : QueryResult HealthResponse → Type 0
IsWell q =
    (q.is_loading ≡ false)
    × (q.is_error ≡ false)
    × ((h : HealthResponse) × (q.data_value ≡ some h) × (h.status ≡ units "ok") × (¬ HasWarnings h))

pub has_warnings_iff : (h : HealthResponse) → (has_warnings h ≡ true) ↔ HasWarnings h
has_warnings_iff h = elim (Option-cases h.warnings) [
  | inl missing ↦ rw missing (λ e. cc, λ (w, ws, e). none_elim e)
  | inr (l, given) ↦ rw given (listed l)
]
  where
    listed :
        (l : List Text)
        → (not (is_empty l) ≡ true) ↔ (
            (w : Text) × (ws : List Text) × (◌≡◌ {A = Option (List Text)} (some l) (some (w ∷ ws))))
    listed [] = (λ e. cc, λ (w, ws, e). let bad : [] ≡ w ∷ ws = some_inj e in cc)
    listed (w ∷ ws) = (λ _. (w, ws, refl), λ _. refl)

unwell_iff :
    (h : HealthResponse) → (is_unwell h ≡ false) ↔ ((h.status ≡ units "ok") × (¬ HasWarnings h))
unwell_iff h =
    let (warned, back) = has_warnings_iff h in
    let (same, equal) = text_has_eq.is_same_iff h.status (units "ok") in
    (
      λ well. (same (ground arith), λ w. let bad = back w in ground arith),
      λ (ok, calm).
          let e = equal ok in
          elim (Bool-cases (has_warnings h)) [
            | inl w ↦ absurd (calm (warned w))
            | inr silent ↦ ground arith
          ],
    )

state_iff :
    (q : QueryResult HealthResponse)
    → (state_of q ≡ online) ↔ ((q.is_loading ≡ false) × (reachable q ≡ true) × (degraded q ≡ false))
unfolding state_of
state_iff q = ground arith

reachable_iff :
    (q : QueryResult HealthResponse)
    → (reachable q ≡ true) ↔ ((is_some q.data_value ≡ true) × (q.is_error ≡ false))
unfolding reachable
reachable_iff q = ground arith

pub degraded-some :
    (q : QueryResult HealthResponse) (h : HealthResponse)
    → q.data_value ≡ some h
    → degraded q ≡ (reachable q && is_unwell h)
unfolding degraded
degraded-some q h e = rw (e, degraded) refl

degraded-reachable : (q : QueryResult HealthResponse) → degraded q ≡ true → reachable q ≡ true
unfolding degraded
degraded-reachable q h = (And-cases (reachable q) _ h).0

IsWell-iff : (q : QueryResult HealthResponse) → (state_of q ≡ online) ↔ IsWell q
IsWell-iff q = (
  λ shown.
      let (settled, reached, well) = (state_iff q).0 shown in
      let (given, unfailed) = (reachable_iff q).0 reached in
      let (h, e) = is_some_lem q.data_value given in
      let d = degraded-some q h e in
      let (ok, calm) = (unwell_iff h).0 (ground arith) in (settled, unfailed, (h, e, ok, calm)),
  λ (settled, unfailed, (h, e, ok, calm)).
      let well = (unwell_iff h).1 (ok, calm) in
      let reached = (reachable_iff q).1 (rw e refl, unfailed) in
      let d = degraded-some q h e in (state_iff q).1 (settled, reached, ground arith),
)

pub state_of-IsWell :
    (configured : Bool) (q : QueryResult HealthResponse)
    → ((state_of q ≡ online) ↔ IsWell q)
      × (state_of q ≡ online → label_of q ≡ units "topbar.apiOnline")
      × (state_of q ≡ offline → label_of q ≡ units "topbar.apiOffline")
      × (q.is_loading ≡ false
          → degraded q ≡ true
          → (state_of q ≡ connecting) × (label_of q ≡ units "topbar.degraded"))
      × (asks_for_key configured q ≡ true → reachable q ≡ true)
unfolding state_of label_of asks_for_key
state_of-IsWell configured q = (
  IsWell-iff q,
  λ h. ground arith,
  λ h. ground arith,
  λ h d. let r = degraded-reachable q d in (ground arith, ground arith),
  λ h. (And-cases (reachable q) (not configured) h).0,
)
