-- ===== src/Session/History/Log.antt =====
-- What is in the index after a sequence of records.
use mathlib.Core.Path.{subst}
use agent_os_test.Prelude.{
  ℕ, zero, suc, ◌≡◌, refl, sym, ap, ◌∙◌, inl, inr, true, false, List, [], ◌∷◌, Text, text_has_eq,
  text_eq_iff, eq_refl, contains, Distinct, take, filter, ◌==◌, if◌then◌else◌, arith, Bool-cases,
}
use agent_os_test.Session.History.{
  HistoryEntry, HistoryKind, task, workflow_run, runtime_execution, approval, entries, kind_has_eq,
  empty_store, Codec, State, pushed, record_history,
}
use agent_os_test.Session.History.Keeps.{
  ids, other_than, filter-Distinct, filter-removes, take-absent, record_history-entries,
}

-- The entries of a log, the latest first, without those whose id stands further up.
pub latest : List HistoryEntry → List HistoryEntry
latest [] = []
latest (e ∷ es) = e ∷ filter (other_than e.id) (latest es)

-- A log of records, the latest first, and the part of one kind.
abbrev pub Log : Type 0
Log = List (HistoryKind × HistoryEntry)

abbrev pub of_kind : HistoryKind → Log → List HistoryEntry
of_kind k [] = []
of_kind k ((j, e) ∷ log) = if j == k then e ∷ of_kind k log else of_kind k log

latest-Distinct : (es : List HistoryEntry) → Distinct (ids (latest es))
unfolding latest
latest-Distinct [] = tt
latest-Distinct (e ∷ es) =
    (filter-removes e.id (latest es), filter-Distinct e.id (latest es) (latest-Distinct es))

take_idem : (n : ℕ) (es : List HistoryEntry) → take n (take n es) ≡ take n es
take_idem zero es = refl
take_idem (suc n) [] = refl
take_idem (suc n) (e ∷ es) = ap (λ r. e ∷ r) (take_idem n es)

filter-none :
    (a : Text) (es : List HistoryEntry)
    → contains a (ids es) ≡ false
    → filter (other_than a) es ≡ es
filter-none a [] h = refl
filter-none a (e ∷ es) h = ground (arith, filter-none a es, text_eq_iff e.id a, text_eq_iff a e.id)

-- Dropping what is behind the first n + 1 entries is not seen in the first n of the others.
take-filter-take :
    (n : ℕ) (a : Text) (es : List HistoryEntry)
    → Distinct (ids es)
    → take n (filter (other_than a) (take (suc n) es)) ≡ take n (filter (other_than a) es)
take-filter-take zero a es d = refl
take-filter-take (suc n) a [] d = refl
take-filter-take (suc n) a (e ∷ es) (new, d) = elim (Bool-cases (e.id == a)) [
  | inl same ↦
      let absent : contains a (ids es) ≡ false = rw (← (text_eq_iff e.id a).0 same) new in
      rw same (
        rw
          (
            filter-none a es absent,
            filter-none a (take (suc n) es) (take-absent (suc n) a es absent),
          )
          (take_idem (suc n) es))
  | inr other ↦ rw other (ap (λ r. e ∷ r) (take-filter-take n a es d))
]

module _ (json : Codec) where
  -- The calls of `recordHistory` that a log stands for.
  unfoldable pub replay : Log → State → State
  replay [] s = s
  replay ((k, e) ∷ log) s = record_history json k e (replay log s)

  shown :
      (j : HistoryKind) (e : HistoryEntry) (log : Log) {old : List HistoryEntry}
      → old ≡ take 25 (latest (of_kind j log))
      → pushed json e old ≡ take 25 (e ∷ filter (other_than e.id) (latest (of_kind j log)))
  unfolding pushed
  shown j e log h = rw h (
      ap (λ r. e ∷ r)
        (take-filter-take 24 e.id (latest (of_kind j log)) (latest-Distinct (of_kind j log))))

  -- After any calls of `recordHistory` on an empty store, the entries of a kind are the first 25
  -- of its latest records of distinct ids.
  pub replay-entries :
      (log : Log) (k : HistoryKind) (s : State)
      → s.store ≡ empty_store
      → entries (replay log s).store k ≡ take 25 (latest (of_kind k log))
  unfolding replay latest
  replay-entries [] task s h = rw h
  replay-entries [] workflow_run s h = rw h
  replay-entries [] runtime_execution s h = rw h
  replay-entries [] approval s h = rw h
  replay-entries ((j, e) ∷ log) k s h = elim (Bool-cases (j == k)) [
    | inl same ↦
        let p : j ≡ k = (kind_has_eq.is_same_iff j k).0 same in
        rw (record_history-entries json j k e (replay log s), same)
          (subst
            (λ x.
              (if x == j
                then pushed json e (entries (replay log s).store j)
                else entries (replay log s).store x)
              ≡ take 25 (e ∷ filter (other_than e.id) (latest (of_kind x log))))
            p (rw (eq_refl j) (shown j e log (replay-entries log j s h))))
    | inr other ↦
        rw (record_history-entries json j k e (replay log s), other)
          (rw (apart j k other) (replay-entries log k s h))
  ]
    where
      apart : (j k : HistoryKind) → (j == k) ≡ false → (k == j) ≡ false
      apart j k h = elim (Bool-cases (k == j)) [
        | inl same ↦
            let q : j ≡ k = sym ((kind_has_eq.is_same_iff k j).0 same) in
            let bad : true ≡ false = sym ((kind_has_eq.is_same_iff j k).1 q) ∙ h in cc
        | inr other ↦ other
      ]
