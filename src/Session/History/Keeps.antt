-- ===== src/Session/History/Keeps.antt =====
-- The index of a kind holds the latest 25 records of distinct ids.
use agent_os_test.Prelude.{
  ℕ, zero, suc, ◌≤◌, ◌≡◌, refl, Bool, true, false, not, List, [], ◌∷◌, map, Text, text_has_eq,
  text_eq_iff, contains, Distinct, length, length-take, take, filter, ◌==◌, if◌then◌else◌, arith,
}
use agent_os_test.Session.History.{
  HistoryEntry, HistoryKind, Store, entries, with_entries, kind_has_eq, HistoryKind-discrete, Codec,
  State, persist, pushed, record_history, clear_history,
}

abbrev pub ids : List HistoryEntry → List Text
ids es = map (λ e. e.id) es

abbrev pub other_than : Text → HistoryEntry → Bool
other_than a e = not (e.id == a)

-- At most 25 entries, of distinct ids.
abbrev pub IsIndex : List HistoryEntry → Type 0
IsIndex es = (length es ≤ 25) × Distinct (ids es)

abbrev pub IsValid : Store → Type 0
IsValid s = (kind : HistoryKind) → IsIndex (entries s kind)

filter-absent :
    (a b : Text) (es : List HistoryEntry)
    → contains b (ids es) ≡ false
    → contains b (ids (filter (other_than a) es)) ≡ false
filter-absent a b [] h = refl
filter-absent a b (e ∷ es) h = ground (arith, filter-absent a b es)

pub filter-Distinct :
    (a : Text) (es : List HistoryEntry)
    → Distinct (ids es)
    → Distinct (ids (filter (other_than a) es))
filter-Distinct a [] h = tt
filter-Distinct a (e ∷ es) h = ground (arith, filter-Distinct a es, filter-absent a e.id es)

pub filter-removes :
    (a : Text) (es : List HistoryEntry) → contains a (ids (filter (other_than a) es)) ≡ false
filter-removes a [] = refl
filter-removes a (e ∷ es) =
    ground (arith, filter-removes a es, text_eq_iff e.id a, text_eq_iff a e.id)

pub take-absent :
    (n : ℕ) (b : Text) (es : List HistoryEntry)
    → contains b (ids es) ≡ false
    → contains b (ids (take n es)) ≡ false
take-absent zero b es h = refl
take-absent (suc n) b [] h = refl
take-absent (suc n) b (e ∷ es) h = ground (arith, take-absent n b es)

take-Distinct : (n : ℕ) (es : List HistoryEntry) → Distinct (ids es) → Distinct (ids (take n es))
take-Distinct zero es h = tt
take-Distinct (suc n) [] h = tt
take-Distinct (suc n) (e ∷ es) (new, h) = (take-absent n e.id es new, take-Distinct n es h)

entries-with_entries :
    (s : Store) (k j : HistoryKind) (es : List HistoryEntry)
    → entries (with_entries s k es) j ≡ (if j == k then es else entries s j)
unfolding HistoryKind-discrete
entries-with_entries s k j es = ground arith

module _ (json : Codec) where
  pushed-IsIndex :
      (e : HistoryEntry) (old : List HistoryEntry) → IsIndex old → IsIndex (pushed json e old)
  unfolding pushed
  pushed-IsIndex e old (_, d) =
      let all = e ∷ filter (other_than e.id) old in
      (
        omega (arith, length-take 25 all),
        take-Distinct 25 all (filter-removes e.id old, filter-Distinct e.id old d),
      )

  -- Recording into one kind leaves the others alone.
  pub record_history-entries :
      (k j : HistoryKind) (e : HistoryEntry) (s : State)
      → entries (record_history json k e s).store j
        ≡ (if j == k then pushed json e (entries s.store k) else entries s.store j)
  unfolding record_history persist
  record_history-entries k j e s =
      entries-with_entries s.store k j (pushed json e (entries s.store k))

  clear_history-entries :
      (k j : HistoryKind) (s : State)
      → entries (clear_history json k s).store j ≡ (if j == k then [] else entries s.store j)
  unfolding clear_history persist
  clear_history-entries k j s = entries-with_entries s.store k j []

  -- Recording and clearing keep at most 25 entries of each kind, of distinct ids.
  pub record_history-IsValid :
      (k : HistoryKind) (e : HistoryEntry) (s : State)
      → IsValid s.store
      → IsValid (record_history json k e s).store × IsValid (clear_history json k s).store
  record_history-IsValid k e s v = (
    λ j.
        rw (record_history-entries k j e s)
          (if_IsIndex (j == k) _ _ (pushed-IsIndex e (entries s.store k) (v k)) (v j)),
    λ j. rw (clear_history-entries k j s) (if_IsIndex (j == k) _ _ (omega arith, tt) (v j)),
  )
    where
      if_IsIndex :
          (b : Bool) (x y : List HistoryEntry)
          → IsIndex x
          → IsIndex y
          → IsIndex (if b then x else y)
      if_IsIndex true x y h l = h
      if_IsIndex false x y h l = l
