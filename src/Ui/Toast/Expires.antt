-- ===== src/Ui/Toast/Expires.antt =====
-- How long a toast of frontend/src/components/ui/Toast.tsx is shown.
use mathlib.Core.List.{Memᴰ}
use mathlib.Core.List.Memᴰ
use agent_os_test.Prelude.{
  ◌≡◌, ap, ◌<◌, ◌≤◌, ◌+◌, inl, inr, ℕ, true, not, List, [], ◌∷◌, Text, text_has_eq, ◌==◌, eq_refl,
  leb, ltb, lt_ltb, Bool-cases, Mem_filter, Mem_append, Mem_one, none_Mem, arith,
}
use agent_os_test.Ui.Toast.{
  Toast, ToastItem, Provider, push, dismiss, expire, wait, Event, pushed, dismissed, waited, handle,
  run, mounted,
}

-- No timer with the id is due.
abbrev pub NotDue : ℕ → List (ℕ × Text) → Text → Type 0
NotDue now timers id = (time : ℕ) → Memᴰ (time, id) timers → now < time

refuted {ℓ} : {C : Type ℓ} (id : Text) → not (id == id) ≡ true → C
refuted id h = let bad : not true ≡ true = rw (eq_refl id) at h in cc

expire-Mem :
    (now : ℕ) (timers : List (ℕ × Text)) (ts : List ToastItem) (x : ToastItem)
    → Memᴰ x (expire now timers ts)
    → Memᴰ x ts × NotDue now timers x.id
unfolding expire
expire-Mem now [] ts x m = (m, λ time n. elim n [ ])
expire-Mem now ((time, id) ∷ timers) ts x m = elim (Bool-cases (leb time now)) [
  | inl due ↦
      let (rest, other) =
        (Mem_filter (λ t. not (t.id == id)) (expire now timers ts) x).0 (rw due at m) in
      let (before, later) = expire-Mem now timers ts x rest in
      (
        before,
        λ at n. elim (Memᴰ.cases_cons n) [
          | inl e ↦ let same : x.id ≡ id = ap (λ (t, i). i) e in refuted id (rw same at other)
          | inr more ↦ later at more
        ],
      )
  | inr early ↦
      let (before, later) = expire-Mem now timers ts x (rw early at m) in
      (
        before,
        λ at n. elim (Memᴰ.cases_cons n) [
          | inl e ↦ let same : at ≡ time = ap (λ (t, i). t) e in ground arith
          | inr more ↦ later at more
        ],
      )
]

pub Mem-expire :
    (now : ℕ) (timers : List (ℕ × Text)) (ts : List ToastItem) (x : ToastItem)
    → Memᴰ x ts
    → NotDue now timers x.id
    → Memᴰ x (expire now timers ts)
unfolding expire
Mem-expire now [] ts x m h = m
Mem-expire now ((time, id) ∷ timers) ts x m h =
    let rest = Mem-expire now timers ts x m (λ at n. h at (Memᴰ.tail n)) in
    elim (Bool-cases (leb time now)) [
      | inl due ↦
          rw due
            ((Mem_filter (λ t. not (t.id == id)) (expire now timers ts) x).1 (rest, differs due))
      | inr early ↦ rw early rest
    ]
  where
    differs : leb time now ≡ true → not (x.id == id) ≡ true
    differs due = elim (Bool-cases (x.id == id)) [
      | inl same ↦
          let e : x.id ≡ id = (text_has_eq.is_same_iff x.id id).0 same in
          let late : now < time = h time (Memᴰ.head (ap (λ i. (time, i)) e)) in ground arith
      | inr other ↦ rw other
    ]

-- Every toast that is shown has a timer that is due within five seconds.
abbrev pub IsTimed : Provider → Type 0
IsTimed p =
    (x : ToastItem)
    → Memᴰ x p.toasts
    → (time : ℕ) × Memᴰ (time, x.id) p.timers × (time ≤ p.clock + 5000)

push-IsTimed : (id : Text) (toast : Toast) (p : Provider) → IsTimed p → IsTimed (push id toast p)
unfolding push
push-IsTimed id toast p h x m =
    elim ((Mem_append p.toasts (record { id = id; toast = toast } ∷ []) x).1 m) [
      | inl old ↦
          let (time, n, soon) = h x old in
          (time, (Mem_append p.timers ((p.clock + 5000, id) ∷ []) (time, x.id)).0 (inl n), soon)
      | inr new ↦
          let same : x.id ≡ id =
            ap (λ t. t.id) (Mem_one x (record { id = id; toast = toast }) new) in
          (
            p.clock + 5000,
            (Mem_append p.timers ((p.clock + 5000, id) ∷ []) (p.clock + 5000, x.id)).0
                (inr (Memᴰ.head (ap (λ i. (p.clock + 5000, i)) same))),
            omega arith,
          )
    ]

dismiss-IsTimed : (id : Text) (p : Provider) → IsTimed p → IsTimed (dismiss id p)
unfolding dismiss
dismiss-IsTimed id p h x m = h x ((Mem_filter (λ t. not (t.id == id)) p.toasts x).0 m).0

wait-IsTimed : (ms : ℕ) (p : Provider) → IsTimed p → IsTimed (wait ms p)
unfolding wait
wait-IsTimed ms p h x m =
    let (before, not_due) = expire-Mem (p.clock + ms) p.timers p.toasts x m in
    let (time, n, soon) = h x before in
    (
      time,
      (Mem_filter (λ (t, i). ltb (p.clock + ms) t) p.timers (time, x.id)).1
          (n, lt_ltb (p.clock + ms) time (not_due time n)),
      omega arith,
    )

handle-IsTimed : (e : Event) (p : Provider) → IsTimed p → IsTimed (handle e p)
handle-IsTimed (pushed id toast) p h = push-IsTimed id toast p h
handle-IsTimed (dismissed id) p h = dismiss-IsTimed id p h
handle-IsTimed (waited ms) p h = wait-IsTimed ms p h

run-IsTimed : (es : List Event) (p : Provider) → IsTimed p → IsTimed (run es p)
run-IsTimed [] p h = h
run-IsTimed (e ∷ es) p h = run-IsTimed es (handle e p) (handle-IsTimed e p h)

-- Whatever has happened since the page was loaded, every toast that is shown has a timer, and once
-- five seconds have passed with no further push, no toast is shown.
pub run-wait :
    (es : List Event) (ms : ℕ)
    → 5000 ≤ ms
    → IsTimed (run es mounted) × ((wait ms (run es mounted)).toasts ≡ [])
unfolding wait
run-wait es ms h =
    let p = run es mounted in
    let timed = run-IsTimed es mounted (λ x m. elim m [ ]) in
    (
      timed,
      none_Mem (expire (p.clock + ms) p.timers p.toasts) (λ x m.
          let (before, not_due) = expire-Mem (p.clock + ms) p.timers p.toasts x m in
          let (time, n, soon) = timed x before in let late = not_due time n in omega arith),
    )
