-- ===== src/Session/History/Tests.antt =====
-- The theorems on the history at small stores, with a codec.
use agent_os_test.Prelude.{◌≡◌, refl, [], ◌∷◌, ◌++◌, units, take, text_has_eq}
use mathlib.Core.List.{reverse}
use agent_os_test.Session.History.{
  HistoryEntry, task, approval, entries, load, pushed, record_history, clear_history, kind_has_eq,
}
use agent_os_test.Session.History.Log.{replay, latest, of_kind, replay-entries}
use agent_os_test.Session.History.Reloads.{load-record_history, record_history-refused}
use agent_os_test.Session.History.Sample.{codec, blank, private_mode}

abbrev first : HistoryEntry
first = record { id = units "t1"; label = units "One"; created_at = units "now" }

abbrev second : HistoryEntry
second = record { id = units "t2"; label = units "Two"; created_at = units "now" }

replay-entries_example :
    entries
      (replay codec ((task, second) ∷ ((approval, first) ∷ ((task, first) ∷ []))) blank).store
      task
    ≡ take 25 (latest (of_kind task ((task, second) ∷ ((approval, first) ∷ ((task, first) ∷ [])))))
replay-entries_example =
    replay-entries codec ((task, second) ∷ ((approval, first) ∷ ((task, first) ∷ []))) task blank
      refl

load-record_history_example :
    (load codec (record_history codec task first blank).session_storage
      ≡ (record_history codec task first blank).store)
    × (load codec (clear_history codec task blank).session_storage
        ≡ (clear_history codec task blank).store)
load-record_history_example = load-record_history codec task first blank (refl, refl) (refl, refl)

record_history-refused_example :
    ((record_history codec task first private_mode).session_storage ≡ private_mode.session_storage)
    × (entries (record_history codec task first private_mode).store task
        ≡ pushed codec first (entries private_mode.store task))
    × ((record_history codec task first private_mode).called
        ≡ reverse private_mode.listeners ++ private_mode.called)
record_history-refused_example = record_history-refused codec task first private_mode (λ h. cc h.0)
