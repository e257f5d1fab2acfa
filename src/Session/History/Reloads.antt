-- ===== src/Session/History/Reloads.antt =====
-- What survives a reload of the page, and who is told of a change.
use mathlib.Core.List.{reverse, reverse-cons, append_assoc}
use agent_os_test.Prelude.{
  sym, ap, ◌∙◌, ℕ, ◌≡◌, refl, some, List, [], ◌∷◌, ◌++◌, text_has_eq, eq_refl,
}
use agent_os_test.Browser.Storage.{
  Storage, returned, get_item, set_item, or_else, Takes, get_item-set_item, set_item-refused,
}
use agent_os_test.Session.History.{
  HistoryEntry, HistoryKind, Store, store_key, Codec, State, load, call_all, persist,
  record_history, clear_history, entries, pushed, kind_has_eq,
}
use agent_os_test.Session.History.Keeps.{record_history-entries}

module _ (json : Codec) where
  load-set_item :
      (st : Storage) (s : Store)
      → Takes st store_key (json.stringify s)
      → load json (or_else st (set_item st store_key (json.stringify s))) ≡ s
  unfolding load
  load-set_item st s h =
      let read = get_item-set_item st store_key store_key (json.stringify s) h in
      let stored : get_item (or_else st (set_item st store_key (json.stringify s))) store_key
          ≡ returned (some (json.stringify s)) =
        rw (eq_refl store_key) at read in
      rw (stored, load) (rw (json.is_empty-stringify s, json.parse-stringify s))

  -- Whether the storage takes the store that a state has.
  abbrev pub Persists : State → State → Type 0
  Persists before after = Takes before.session_storage store_key (json.stringify after.store)

  -- If the storage takes the new store, a page that is loaded after a record or a clearing starts
  -- with the store that this page has.
  pub load-record_history :
      (k : HistoryKind) (e : HistoryEntry) (s : State)
      → Persists s (record_history json k e s)
      → Persists s (clear_history json k s)
      → (load json (record_history json k e s).session_storage ≡ (record_history json k e s).store)
        × (load json (clear_history json k s).session_storage ≡ (clear_history json k s).store)
  unfolding record_history clear_history persist
  load-record_history k e s h l =
      (load-set_item s.session_storage _ h, load-set_item s.session_storage _ l)

  call_all-append : (ls called : List ℕ) → call_all json ls called ≡ reverse ls ++ called
  call_all-append [] called = refl
  call_all-append (l ∷ ls) called =
      call_all-append ls (l ∷ called)
      ∙ sym (ap (λ r. r ++ called) (reverse-cons l ls) ∙ append_assoc (reverse ls) (l ∷ []) called)

  -- If the storage does not take the new store, it is left as it was, the entry is recorded in the
  -- page all the same, and every listener is called once, in order.
  pub record_history-refused :
      (k : HistoryKind) (e : HistoryEntry) (s : State)
      → ¬ Persists s (record_history json k e s)
      → ((record_history json k e s).session_storage ≡ s.session_storage)
        × (entries (record_history json k e s).store k ≡ pushed json e (entries s.store k))
        × ((record_history json k e s).called ≡ reverse s.listeners ++ s.called)
  record_history-refused k e s h = (
    unfold record_history persist in (set_item-refused s.session_storage store_key _ h),
    record_history-entries json k k e s ∙ rw (eq_refl k),
    unfold record_history persist in (call_all-append s.listeners s.called),
  )
