-- ===== src/Pages/Runtime/Recorded.antt =====
-- What frontend/src/pages/Runtime.tsx sends and records.
use agent_os_test.Prelude.{
  ◌≡◌, ◌⊎◌, refl, ap, ◌∙◌, ◌||◌, Option, none, some, List, [], ◌∷◌, Text, is_empty, take, if_intro,
  Bool-cases, inl, inr, if◌then◌else◌,
}
use mathlib.Core.List.{Memᴰ}
use mathlib.Core.Path.{subst}
use agent_os_test.Json.{Value}
use agent_os_test.Session.History.{
  runtime_execution, entries, empty_store, Codec, State, record_history,
}
use agent_os_test.Session.History.Log.{Log, latest, of_kind, replay, replay-entries}
use agent_os_test.Pages.Runtime.{
  Request, Runtime, is_pending, is_failed, read_payload, request_of, run_with, run, entry_of,
  triggered, rejected, Event, change_provider, change_workflow, change_payload, change_key,
  change_lookup, view, look_up, press, retry, answer, failure, handle, opened,
}
use agent_os_test.Pages.Runtime.Typed.{
  enter, typed, Asks, AskedIn, form_of, request_of-Asks, run_with-form, run_with-sent,
}

-- What is recorded of an event at a page.
abbrev pub noted : Event → Runtime → Log → Log
noted (answer execution) s log =
    if is_pending s.progress then (runtime_execution, entry_of execution) ∷ log else log
noted (change_provider text) s log = log
noted (change_workflow text) s log = log
noted (change_payload text) s log = log
noted (change_key text) s log = log
noted (change_lookup text) s log = log
noted (view id) s log = log
noted look_up s log = log
noted press s log = log
noted retry s log = log
noted (failure message) s log = log

run_with-history : (p : Option Value) (s : Runtime) → (run_with p s).history ≡ s.history
run_with-history none s = refl
run_with-history (some payload) s = refl

module _ (json : Codec) (parse_json : Text → Option Value) where
  -- The events of a session on the page, the latest first.
  unfoldable pub session : List Event → State → Runtime
  session [] history = opened history
  session (e ∷ es) history = handle json parse_json e (session es history)

  -- The executions that answered a request, the latest first.
  unfoldable pub executions : List Event → State → Log
  executions [] history = []
  executions (e ∷ es) history = noted e (session es history) (executions es history)

  run-history : (s : Runtime) → (run json parse_json s).history ≡ s.history
  unfolding run
  run-history s = run_with-history (read_payload parse_json s.payload_text) s

  run-form : (s : Runtime) → form_of (run json parse_json s) ≡ form_of s
  unfolding run
  run-form s = run_with-form (read_payload parse_json s.payload_text) s

  run-sent :
      (s : Runtime) (P : Request → Type 0)
      → ((r : Request) → Asks parse_json (form_of s) r → P r)
      → ((r : Request) → Memᴰ r s.sent → P r)
      → (r : Request) → Memᴰ r (run json parse_json s).sent
      → P r
  unfolding run
  run-sent s P new old =
      run_with-sent (read_payload parse_json s.payload_text) s P
        (λ payload e. new (request_of s payload) (request_of-Asks parse_json s payload e)) old

  handle-history :
      (e : Event) (s : Runtime) (log : Log) (history : State)
      → s.history ≡ replay json log history
      → (handle json parse_json e s).history ≡ replay json (noted e s log) history
  unfolding handle triggered rejected replay
  handle-history (change_provider text) s log history h = h
  handle-history (change_workflow text) s log history h = h
  handle-history (change_payload text) s log history h = h
  handle-history (change_key text) s log history h = h
  handle-history (change_lookup text) s log history h = h
  handle-history (view id) s log history h = h
  handle-history look_up s log history h = h
  handle-history press s log history h =
      if_intro (λ (x : Runtime). x.history ≡ replay json log history)
        (is_pending s.progress || is_empty s.workflow) s (run json parse_json s) (λ off. h)
        (λ on. run-history s ∙ h)
  handle-history retry s log history h =
      if_intro (λ (x : Runtime). x.history ≡ replay json log history) (is_failed s.progress)
        (run json parse_json s) s (λ on. run-history s ∙ h) (λ off. h)
  handle-history (answer execution) s log history h = elim (Bool-cases (is_pending s.progress)) [
    | inl busy ↦ rw busy (ap (record_history json runtime_execution (entry_of execution)) h)
    | inr idle ↦ rw idle h
  ]
  handle-history (failure message) s log history h =
      if_intro (λ (x : Runtime). x.history ≡ replay json log history) (is_pending s.progress)
        (rejected json parse_json message s) s (λ busy. h) (λ idle. h)

  session-replay :
      (es : List Event) (history : State)
      → (session es history).history ≡ replay json (executions es history) history
  unfolding session executions replay
  session-replay [] history = refl
  session-replay (e ∷ es) history =
      handle-history e (session es history) (executions es history) history
        (session-replay es history)

  handle-form :
      (e : Event) (s : Runtime) → form_of (handle json parse_json e s) ≡ enter e (form_of s)
  unfolding handle triggered rejected
  handle-form (change_provider text) s = refl
  handle-form (change_workflow text) s = refl
  handle-form (change_payload text) s = refl
  handle-form (change_key text) s = refl
  handle-form (change_lookup text) s = refl
  handle-form (view id) s = refl
  handle-form look_up s = refl
  handle-form press s =
      if_intro (λ (x : Runtime). form_of x ≡ form_of s)
        (is_pending s.progress || is_empty s.workflow) s (run json parse_json s) (λ off. refl)
        (λ on. run-form s)
  handle-form retry s =
      if_intro (λ (x : Runtime). form_of x ≡ form_of s) (is_failed s.progress)
        (run json parse_json s) s (λ on. run-form s) (λ off. refl)
  handle-form (answer execution) s =
      if_intro (λ (x : Runtime). form_of x ≡ form_of s) (is_pending s.progress)
        (triggered json parse_json execution s) s (λ busy. refl) (λ idle. refl)
  handle-form (failure message) s =
      if_intro (λ (x : Runtime). form_of x ≡ form_of s) (is_pending s.progress)
        (rejected json parse_json message s) s (λ busy. refl) (λ idle. refl)

  session-typed : (es : List Event) (history : State) → form_of (session es history) ≡ typed es
  unfolding session typed
  session-typed [] history = refl
  session-typed (e ∷ es) history =
      handle-form e (session es history) ∙ ap (enter e) (session-typed es history)

  handle-sent :
      (e : Event) (s : Runtime) (P : Request → Type 0)
      → ((e ≡ press) ⊎ (e ≡ retry) → (r : Request) → Asks parse_json (form_of s) r → P r)
      → ((r : Request) → Memᴰ r s.sent → P r)
      → (r : Request) → Memᴰ r (handle json parse_json e s).sent
      → P r
  unfolding handle triggered rejected
  handle-sent (change_provider text) s P new old = old
  handle-sent (change_workflow text) s P new old = old
  handle-sent (change_payload text) s P new old = old
  handle-sent (change_key text) s P new old = old
  handle-sent (change_lookup text) s P new old = old
  handle-sent (view id) s P new old = old
  handle-sent look_up s P new old = old
  handle-sent press s P new old =
      if_intro (λ (x : Runtime). (r : Request) → Memᴰ r x.sent → P r)
        (is_pending s.progress || is_empty s.workflow) s (run json parse_json s) (λ off. old)
        (λ on. run-sent s P (new (inl refl)) old)
  handle-sent retry s P new old =
      if_intro (λ (x : Runtime). (r : Request) → Memᴰ r x.sent → P r) (is_failed s.progress)
        (run json parse_json s) s (λ on. run-sent s P (new (inr refl)) old) (λ off. old)
  handle-sent (answer execution) s P new old =
      if_intro (λ (x : Runtime). (r : Request) → Memᴰ r x.sent → P r) (is_pending s.progress)
        (triggered json parse_json execution s) s (λ busy. old) (λ idle. old)
  handle-sent (failure message) s P new old =
      if_intro (λ (x : Runtime). (r : Request) → Memᴰ r x.sent → P r) (is_pending s.progress)
        (rejected json parse_json message s) s (λ busy. old) (λ idle. old)

  session-AskedIn :
      (es : List Event) (history : State) (r : Request)
      → Memᴰ r (session es history).sent
      → AskedIn parse_json es r
  unfolding session
  session-AskedIn [] history = λ r m. elim m [ ]
  session-AskedIn (e ∷ es) history =
      handle-sent e (session es history) (AskedIn parse_json (e ∷ es))
        (λ sending r asks. (
          e,
          es,
          [],
          refl,
          sending,
          subst (λ f. Asks parse_json f r) (session-typed es history) asks,
        ))
        (λ r m.
          let (d, before, after, same, sending, asks) = session-AskedIn es history r m in
          (d, before, e ∷ after, ap (λ l. e ∷ l) same, sending, asks))

  -- After any events on a page that is opened with an empty history, the executions of the history
  -- are the first 25 of the latest executions of distinct ids that answered a request of the page.
  -- Every request that was sent belongs to a press of the button or of that of the error view, and
  -- has what had been typed until then: the provider, the workflow, the empty object for a blank
  -- payload and else what it parses to, and the idempotency key unless it is empty.
  pub session-entries :
      (es : List Event) (history : State)
      → history.store ≡ empty_store
      → (entries (session es history).history.store runtime_execution
          ≡ take 25 (latest (of_kind runtime_execution (executions es history))))
        × ((r : Request) → Memᴰ r (session es history).sent → AskedIn parse_json es r)
  session-entries es history h = (
    ap (λ (x : State). entries x.store runtime_execution) (session-replay es history)
        ∙ replay-entries json (executions es history) runtime_execution history h,
    session-AskedIn es history,
  )
