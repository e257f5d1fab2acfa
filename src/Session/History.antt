-- ===== src/Session/History.antt =====
-- frontend/src/lib/session-history.ts. The module's state is the store, the set of listeners and
-- the browser's session storage; a call of a listener is an entry in a log.
pub mod Keeps
pub mod Log
pub mod Reloads
pub mod Sample
mod Tests
use agent_os_test.Prelude.{
  ℕ, Bool, true, false, not, Option, none, some, List, [], ◌∷◌, ◌++◌, Text, text_has_eq, nat_eq,
  units, take, filter, ◌==◌, is_empty, StrictEq, eq_of_discrete, ◌≡◌, if◌then◌else◌, set_add,
  set_delete,
}
use agent_os_test.Browser.Storage.{Storage, Attempt, returned, thrown, get_item, set_item, or_else}

pub record HistoryEntry : Type 0 where
  pub id : Text
  pub label : Text
  pub created_at : Text

pub data HistoryKind : Type 0 where
  task workflow_run runtime_execution approval : HistoryKind

HistoryKind-discrete : Discrete HistoryKind
HistoryKind-discrete = hlevel

instance abbrev pub kind_has_eq : StrictEq HistoryKind
unfolding HistoryKind-discrete
kind_has_eq = eq_of_discrete HistoryKind-discrete

-- `Record<HistoryKind, HistoryEntry[]>`
pub record Store : Type 0 where
  pub of_task : List HistoryEntry
  pub of_workflow_run : List HistoryEntry
  pub of_runtime_execution : List HistoryEntry
  pub of_approval : List HistoryEntry

-- `store[kind]`
abbrev pub entries : Store → HistoryKind → List HistoryEntry
entries s task = s.of_task
entries s workflow_run = s.of_workflow_run
entries s runtime_execution = s.of_runtime_execution
entries s approval = s.of_approval

-- `{ ...store, [kind]: es }`
abbrev pub with_entries : Store → HistoryKind → List HistoryEntry → Store
with_entries s task es = record s { of_task = es }
with_entries s workflow_run es = record s { of_workflow_run = es }
with_entries s runtime_execution es = record s { of_runtime_execution = es }
with_entries s approval es = record s { of_approval = es }

abbrev pub empty_store : Store
empty_store = record {
  of_task = [];
  of_workflow_run = [];
  of_runtime_execution = [];
  of_approval = [];
}

abbrev pub store_key : Text
store_key = units "agent-os:session-history"

-- `JSON.parse` and `JSON.stringify` at stores. The text of `parse` is not checked by the program:
-- a value of another shape is outside the model.
pub record Codec : Type 0 where
  pub stringify : Store → Text
  pub parse : Text → Attempt Store
  pub parse-stringify : (s : Store) → parse (stringify s) ≡ returned s
  -- The text of an object is not empty.
  pub is_empty-stringify : (s : Store) → is_empty (stringify s) ≡ false

pub record State : Type 0 where
  pub store : Store
  pub listeners : List ℕ
  pub session_storage : Storage
  -- The listeners that have been called, the latest first.
  pub called : List ℕ

abbrev pub parsed_or_empty : Attempt Store → Store
parsed_or_empty (returned s) = s
parsed_or_empty thrown = empty_store

module _ (json : Codec) where
  -- `load`
  pub load : Storage → Store
  load st = elim (get_item st store_key) [
    | thrown ↦ empty_store
    | returned none ↦ empty_store
    | returned (some raw) ↦ if is_empty raw then empty_store else parsed_or_empty (json.parse raw)
  ]

  -- `listeners.forEach((listener) => listener())`
  abbrev pub call_all : List ℕ → List ℕ → List ℕ
  call_all [] called = called
  call_all (l ∷ ls) called = call_all ls (l ∷ called)

  -- `persist`
  pub persist : State → State
  persist s = record s {
    session_storage =
        or_else s.session_storage (set_item s.session_storage store_key (json.stringify s.store));
    called = call_all s.listeners s.called;
  }

  -- `[entry, ...old.filter((e) => e.id !== entry.id)].slice(0, 25)`
  pub pushed : HistoryEntry → List HistoryEntry → List HistoryEntry
  pushed entry old = take 25 (entry ∷ filter (λ e. not (e.id == entry.id)) old)

  -- `recordHistory`
  pub record_history : HistoryKind → HistoryEntry → State → State
  record_history kind entry s =
      persist (record s { store = with_entries s.store kind (pushed entry (entries s.store kind)) })

  -- `clearHistory`
  pub clear_history : HistoryKind → State → State
  clear_history kind s = persist (record s { store = with_entries s.store kind [] })

-- `useSessionHistory`: what subscribing, its clean-up and a read of the snapshot do.
pub subscribe : ℕ → State → State
subscribe on_change s = record s { listeners = set_add on_change s.listeners }

pub unsubscribe : ℕ → State → State
unsubscribe on_change s = record s { listeners = set_delete on_change s.listeners }

pub snapshot : HistoryKind → State → List HistoryEntry
snapshot kind s = entries s.store kind
