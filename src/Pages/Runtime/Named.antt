-- ===== src/Pages/Runtime/Named.antt =====
-- Whether a request of frontend/src/pages/Runtime.tsx names a workflow.
use agent_os_test.Prelude.{
  ◌≡◌, ◌≢◌, refl, ◌||◌, false, Option, none, List, [], ◌∷◌, Text, units, trim, trim_start, is_empty,
  if_intro, arith,
}
use mathlib.Core.List.{Memᴰ}
use agent_os_test.Json.{Value, obj, end}
use agent_os_test.Session.History.{Codec, State}
use agent_os_test.Pages.Runtime.{
  Request, Runtime, is_pending, read_payload, run, triggered, rejected, Event, change_provider,
  change_workflow, change_payload, change_key, change_lookup, view, look_up, press, retry, answer,
  failure, handle,
}
use agent_os_test.Pages.Runtime.Recorded.{session}
use agent_os_test.Pages.Runtime.Typed.{run_with-sent}

abbrev pub AllNamed : Runtime → Type 0
AllNamed s = (r : Request) → Memᴰ r s.sent → r.workflow ≢ []

-- The button of the error view was not used.
abbrev pub OtherThanRetry : Event → Type 0
OtherThanRetry retry = ⊥
OtherThanRetry _ = Unit

abbrev pub WithoutRetry : List Event → Type 0
WithoutRetry [] = Unit
WithoutRetry (e ∷ es) = OtherThanRetry e × WithoutRetry es

full : (s : Text) → is_empty s ≡ false → s ≢ []
full [] h = λ e. cc
full (c ∷ s) h = λ e. cc

module _ (json : Codec) (parse_json : Text → Option Value) where
  run-AllNamed : (s : Runtime) → s.workflow ≢ [] → AllNamed s → AllNamed (run json parse_json s)
  unfolding run
  run-AllNamed s named h =
      run_with-sent (read_payload parse_json s.payload_text) s (λ r. r.workflow ≢ [])
        (λ payload e. named) h

  handle-AllNamed :
      (e : Event) (s : Runtime)
      → OtherThanRetry e
      → AllNamed s
      → AllNamed (handle json parse_json e s)
  unfolding handle triggered rejected
  handle-AllNamed (change_provider text) s o h = h
  handle-AllNamed (change_workflow text) s o h = h
  handle-AllNamed (change_payload text) s o h = h
  handle-AllNamed (change_key text) s o h = h
  handle-AllNamed (change_lookup text) s o h = h
  handle-AllNamed (view id) s o h = h
  handle-AllNamed look_up s o h = h
  handle-AllNamed press s o h =
      if_intro AllNamed (is_pending s.progress || is_empty s.workflow) s (run json parse_json s)
        (λ off. h) (λ on. run-AllNamed s (full s.workflow (ground arith)) h)
  handle-AllNamed retry s o h = elim o [ ]
  handle-AllNamed (answer execution) s o h =
      if_intro AllNamed (is_pending s.progress) (triggered json parse_json execution s) s
        (λ busy. h) (λ idle. h)
  handle-AllNamed (failure message) s o h =
      if_intro AllNamed (is_pending s.progress) (rejected json parse_json message s) s (λ busy. h)
        (λ idle. h)

  session-named :
      (es : List Event) (history : State)
      → WithoutRetry es
      → AllNamed (session json parse_json es history)
  unfolding session
  session-named [] history o = λ r m. elim m [ ]
  session-named (e ∷ es) history (other, o) =
      handle-AllNamed e (session json parse_json es history) other (session-named es history o)

  -- A session that does not use the button of the error view sends only requests that name a
  -- workflow. There is a session with it that sends a request without a workflow.
  pub session-AllNamed :
      (history : State)
      → ((es : List Event) → WithoutRetry es → AllNamed (session json parse_json es history))
        × ((es : List Event) × (r : Request) × Memᴰ r (session json parse_json es history).sent
            × (r.workflow ≡ []))
  unfolding session handle run rejected trim trim_start
  session-AllNamed history = (
    λ es o. session-named es history o,
    (
      retry
          ∷ (change_workflow []
              ∷ (failure [] ∷ (press ∷ (change_workflow (units "w") ∷ (change_payload [] ∷ []))))),
      record { provider = units "n8n"; workflow = []; payload = obj end; idempotency_key = none },
      Memᴰ.head refl,
      refl,
    ),
  )
