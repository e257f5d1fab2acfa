-- ===== src/Pages/Approvals/Recorded.antt =====
-- What frontend/src/pages/Approvals.tsx sends and records.
use agent_os_test.Prelude.{
  ◌≡◌, ◌≢◌, refl, sym, ap, ◌∙◌, ℕ, ◌+◌, Bool, ◌||◌, true, false, some, List, [], ◌∷◌, Text,
  is_empty, none_elim, some_inj, length, take, ◌≤◌, if_intro, Bool-cases, inl, inr, arith,
  if◌then◌else◌,
}
use mathlib.Core.List.{Memᴰ}
use agent_os_test.Session.History.{approval, entries, empty_store, Codec, State, record_history}
use agent_os_test.Session.History.Log.{Log, latest, of_kind, replay, replay-entries}
use agent_os_test.Pages.Approvals.{
  Request, Approvals, request_of, text_or_undefined, issue, entry_of, issued, refused, Event,
  choose_tool, change_approved_by, change_reason, press, answer, failure, handle, opened,
}

abbrev pub IsComplete : Request → Type 0
IsComplete r = (r.tool ≢ []) × (r.approved_by ≢ []) × (r.reason ≢ some [])

-- Every request that was sent is complete.
abbrev pub Completes : Approvals → Type 0
Completes s = (r : Request) → Memᴰ r s.sent → IsComplete r

full : (s : Text) → is_empty s ≡ false → s ≢ []
full [] h = λ e. cc
full (c ∷ s) h = λ e. cc

given : (s : Text) → text_or_undefined s ≢ some []
given [] = λ e. none_elim e
given (c ∷ s) = λ e. let bad : c ∷ s ≡ [] = some_inj e in cc

newest :
    (s : Approvals) (r : Request)
    → r ≡ request_of s
    → is_empty s.tool ≡ false
    → is_empty s.approved_by ≡ false
    → IsComplete r
newest s r same named signed = (
  λ e. full s.tool named (ap (λ (x : Request). x.tool) (sym same) ∙ e),
  λ e. full s.approved_by signed (ap (λ (x : Request). x.approved_by) (sym same) ∙ e),
  λ e. given s.reason (ap (λ (x : Request). x.reason) (sym same) ∙ e),
)

issue-IsComplete : (s : Approvals) → Completes s → Completes (issue s)
unfolding issue
issue-IsComplete s h = elim (Bool-cases (is_empty s.tool || is_empty s.approved_by)) [
  | inl lacks ↦ rw lacks h
  | inr has ↦
      let named : is_empty s.tool ≡ false = ground arith in
      let signed : is_empty s.approved_by ≡ false = ground arith in
      rw has
        (λ r m. elim m [ Memᴰ.head same ↦ newest s r same named signed | Memᴰ.tail old ↦ h r old ])
]

abbrev under_way : Bool → ℕ
under_way true = 1
under_way false = 0

issue-history : (s : Approvals) → (issue s).history ≡ s.history
unfolding issue
issue-history s = ground arith

issue-length :
    (s : Approvals)
    → s.is_pending ≡ false
    → length s.sent + under_way (issue s).is_pending ≤ length (issue s).sent
unfolding issue
issue-length s idle = elim (Bool-cases (is_empty s.tool || is_empty s.approved_by)) [
  | inl lacks ↦ rw (lacks, idle) (omega arith)
  | inr has ↦ rw has (omega arith)
]

-- What an event answers, at a page: the grant that is recorded of it.
abbrev pub noted : Event → Approvals → Log → Log
noted (answer grant now) s log = if s.is_pending then (approval, entry_of grant now) ∷ log else log
noted (choose_tool text) s log = log
noted (change_approved_by text) s log = log
noted (change_reason text) s log = log
noted press s log = log
noted (failure message) s log = log

module _ (json : Codec) where
  -- The events of a session on the page, the latest first.
  unfoldable pub run : List Event → State → Approvals
  run [] history = opened history
  run (e ∷ es) history = handle json e (run es history)

  -- The grants of a session that answered a request, the latest first.
  unfoldable pub grants : List Event → State → Log
  grants [] history = []
  grants (e ∷ es) history = noted e (run es history) (grants es history)

  handle-history :
      (e : Event) (s : Approvals) (log : Log) (history : State)
      → s.history ≡ replay json log history
      → (handle json e s).history ≡ replay json (noted e s log) history
  unfolding handle issued refused replay
  handle-history (choose_tool text) s log history h = h
  handle-history (change_approved_by text) s log history h = h
  handle-history (change_reason text) s log history h = h
  handle-history press s log history h =
      if_intro (λ (x : Approvals). x.history ≡ replay json log history) s.is_pending s (issue s)
        (λ busy. h) (λ idle. issue-history s ∙ h)
  handle-history (answer grant now) s log history h = elim (Bool-cases s.is_pending) [
    | inl busy ↦ rw busy (ap (record_history json approval (entry_of grant now)) h)
    | inr idle ↦ rw idle h
  ]
  handle-history (failure message) s log history h =
      if_intro (λ (x : Approvals). x.history ≡ replay json log history) s.is_pending
        (refused json message s) s (λ busy. h) (λ idle. h)

  run-replay :
      (es : List Event) (history : State)
      → (run es history).history ≡ replay json (grants es history) history
  unfolding run grants replay
  run-replay [] history = refl
  run-replay (e ∷ es) history =
      handle-history e (run es history) (grants es history) history (run-replay es history)

  handle-IsComplete : (e : Event) (s : Approvals) → Completes s → Completes (handle json e s)
  unfolding handle issued refused
  handle-IsComplete (choose_tool text) s h = h
  handle-IsComplete (change_approved_by text) s h = h
  handle-IsComplete (change_reason text) s h = h
  handle-IsComplete press s h =
      if_intro Completes s.is_pending s (issue s) (λ busy. h) (λ idle. issue-IsComplete s h)
  handle-IsComplete (answer grant now) s h =
      if_intro Completes s.is_pending (issued json grant now s) s (λ busy. h) (λ idle. h)
  handle-IsComplete (failure message) s h =
      if_intro Completes s.is_pending (refused json message s) s (λ busy. h) (λ idle. h)

  run-IsComplete : (es : List Event) (history : State) → Completes (run es history)
  unfolding run
  run-IsComplete [] history = λ r m. elim m [ ]
  run-IsComplete (e ∷ es) history = handle-IsComplete e (run es history) (run-IsComplete es history)

  handle-length :
      (e : Event) (s : Approvals) (log : Log)
      → length log + under_way s.is_pending ≤ length s.sent
      → length (noted e s log) + under_way (handle json e s).is_pending
        ≤ length (handle json e s).sent
  unfolding handle issued refused
  handle-length (choose_tool text) s log h = h
  handle-length (change_approved_by text) s log h = h
  handle-length (change_reason text) s log h = h
  handle-length press s log h =
      if_intro (λ (x : Approvals). length log + under_way x.is_pending ≤ length x.sent) s.is_pending
        s (issue s) (λ busy. h) (λ idle. let more = issue-length s idle in omega arith)
  handle-length (answer grant now) s log h = ground arith
  handle-length (failure message) s log h = ground arith

  run-length :
      (es : List Event) (history : State)
      → length (grants es history) + under_way (run es history).is_pending
        ≤ length (run es history).sent
  unfolding run grants
  run-length [] history = omega arith
  run-length (e ∷ es) history =
      handle-length e (run es history) (grants es history) (run-length es history)

  -- After any events on a page that is opened with an empty history, the approvals of the history
  -- are the first 25 of the latest grants of distinct ids that answered a request of the page.
  -- Every request that was sent names a tool and an approver and has no empty reason, and there are
  -- at least as many of them as such grants.
  pub run-entries :
      (es : List Event) (history : State)
      → history.store ≡ empty_store
      → (entries (run es history).history.store approval
          ≡ take 25 (latest (of_kind approval (grants es history))))
        × Completes (run es history)
        × (length (grants es history) ≤ length (run es history).sent)
  run-entries es history h = (
    ap (λ (x : State). entries x.store approval) (run-replay es history)
        ∙ replay-entries json (grants es history) approval history h,
    run-IsComplete es history,
    (let enough = run-length es history in omega arith),
  )
