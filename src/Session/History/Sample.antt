-- ===== src/Session/History/Sample.antt =====
-- A codec for the stores of frontend/src/lib/session-history.ts, and an empty history with it.
use agent_os_test.Prelude.{
  ℕ, zero, suc, ◌≡◌, refl, ap, ◌∙◌, true, false, List, [], ◌∷◌, Text, length, text_has_eq,
}
use agent_os_test.Browser.Storage.{Storage, Attempt, returned, thrown}
use agent_os_test.Session.History.{HistoryEntry, Store, empty_store, Codec, State, kind_has_eq}

-- A text with its end marked, in front of `rest`.
abbrev put : Text → Text → Text
put [] rest = 0 ∷ rest
put (c ∷ s) rest = suc c ∷ put s rest

abbrev Read : Type 0
Read = Text × Text

abbrev onto : ℕ → Read → Read
onto c (s, rest) = (c ∷ s, rest)

abbrev get : Text → Read
get [] = ([], [])
get (zero ∷ rest) = ([], rest)
get (suc c ∷ rest) = onto c (get rest)

get-put : (s rest : Text) → get (put s rest) ≡ (s, rest)
get-put [] rest = refl
get-put (c ∷ s) rest = ap (onto c) (get-put s rest)

abbrev put_entry : HistoryEntry → Text → Text
put_entry e rest = put e.id (put e.label (put e.created_at rest))

abbrev put_entries : List HistoryEntry → Text → Text
put_entries [] rest = rest
put_entries (e ∷ es) rest = put_entry e (put_entries es rest)

abbrev entry_of : Text → Text → Read → HistoryEntry × Text
entry_of id label (at, rest) = (record { id = id; label = label; created_at = at }, rest)

abbrev label_of : Text → Read → HistoryEntry × Text
label_of id (label, rest) = entry_of id label (get rest)

abbrev id_of : Read → HistoryEntry × Text
id_of (id, rest) = label_of id (get rest)

get-put_entry : (e : HistoryEntry) (rest : Text) → id_of (get (put_entry e rest)) ≡ (e, rest)
get-put_entry e rest =
    simp
      (
        get-put e.id (put e.label (put e.created_at rest)),
        get-put e.label (put e.created_at rest),
        get-put e.created_at rest,
      )
      refl

abbrev Entries : Type 0
Entries = List HistoryEntry × Text

abbrev entry_onto : HistoryEntry → Entries → Entries
entry_onto e (es, rest) = (e ∷ es, rest)

abbrev get_entries : ℕ → Text → Entries
get_entries zero rest = ([], rest)
get_entries (suc n) rest =
    let found = id_of (get rest) in entry_onto found.0 (get_entries n found.1)

get-put_entries :
    (es : List HistoryEntry) (rest : Text)
    → get_entries (length es) (put_entries es rest) ≡ (es, rest)
get-put_entries [] rest = refl
get-put_entries (e ∷ es) rest =
    ap (λ (found : HistoryEntry × Text). entry_onto found.0 (get_entries (length es) found.1))
      (get-put_entry e (put_entries es rest))
    ∙ ap (entry_onto e) (get-put_entries es rest)

abbrev encode : Store → Text
encode s =
    length s.of_task
    ∷ (length s.of_workflow_run
        ∷ (length s.of_runtime_execution
            ∷ (length s.of_approval
                ∷ put_entries s.of_task (
                    put_entries s.of_workflow_run
                      (put_entries s.of_runtime_execution (put_entries s.of_approval []))))))

abbrev with_approvals : List HistoryEntry → List HistoryEntry → List HistoryEntry → Entries → Store
with_approvals ts ws rs (ps, rest) = record {
  of_task = ts;
  of_workflow_run = ws;
  of_runtime_execution = rs;
  of_approval = ps;
}

abbrev with_executions : ℕ → List HistoryEntry → List HistoryEntry → Entries → Store
with_executions d ts ws (rs, rest) = with_approvals ts ws rs (get_entries d rest)

abbrev with_runs : ℕ → ℕ → List HistoryEntry → Entries → Store
with_runs c d ts (ws, rest) = with_executions d ts ws (get_entries c rest)

abbrev with_tasks : ℕ → ℕ → ℕ → Entries → Store
with_tasks b c d (ts, rest) = with_runs c d ts (get_entries b rest)

abbrev decode : Text → Attempt Store
decode (a ∷ (b ∷ (c ∷ (d ∷ rest)))) = returned (with_tasks b c d (get_entries a rest))
decode _ = thrown

pub decode-encode : (s : Store) → decode (encode s) ≡ returned s
decode-encode s =
    simp
      (
        get-put_entries s.of_task (
            put_entries s.of_workflow_run
              (put_entries s.of_runtime_execution (put_entries s.of_approval []))),
        get-put_entries s.of_workflow_run
            (put_entries s.of_runtime_execution (put_entries s.of_approval [])),
        get-put_entries s.of_runtime_execution (put_entries s.of_approval []),
        get-put_entries s.of_approval [],
      )
      refl

abbrev pub codec : Codec
codec = record {
  stringify = encode;
  parse = decode;
  parse-stringify = decode-encode;
  is_empty-stringify = λ s. refl;
}

abbrev pub session : Storage
session = record { available = true; fits = λ k v. true; items = [] }

abbrev pub blank : State
blank = record { store = empty_store; listeners = 7 ∷ []; session_storage = session; called = [] }

-- In private mode, where every access throws.
abbrev pub private_mode : State
private_mode = record blank { session_storage = record session { available = false } }
