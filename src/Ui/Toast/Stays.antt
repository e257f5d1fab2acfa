-- ===== src/Ui/Toast/Stays.antt =====
-- A toast of frontend/src/components/ui/Toast.tsx is not taken away early.
use mathlib.Core.List.{Memᴰ}
use agent_os_test.Prelude.{
  ◌≡◌, ◌≢◌, refl, sym, ap, ◌<◌, ◌≤◌, ◌+◌, inl, inr, ℕ, true, not, List, [], ◌∷◌, Text, text_has_eq,
  ◌==◌, ltb, Bool-cases, Mem_filter, Mem_append, Mem_one, arith,
}
use agent_os_test.Ui.Toast.{
  Toast, ToastItem, Provider, push, dismiss, wait, Event, pushed, dismissed, waited, handle, run,
}
use agent_os_test.Ui.Toast.Expires.{Mem-expire}

-- The time that the events take, and that none of them is about the id.
abbrev pub time_of : List Event → ℕ
time_of [] = 0
time_of (pushed i toast ∷ es) = time_of es
time_of (dismissed i ∷ es) = time_of es
time_of (waited ms ∷ es) = ms + time_of es

abbrev pub Apart : Text → List Event → Type 0
Apart id [] = Unit
Apart id (pushed i toast ∷ es) = (i ≢ id) × Apart id es
Apart id (dismissed i ∷ es) = (i ≢ id) × Apart id es
Apart id (waited ms ∷ es) = Apart id es

-- The toast is shown, and no timer with its id is due before the time.
abbrev KeptUntil : ℕ → ToastItem → Provider → Type 0
KeptUntil end x p = Memᴰ x p.toasts × ((time : ℕ) → Memᴰ (time, x.id) p.timers → end ≤ time)

differs : (i id : Text) → i ≢ id → not (id == i) ≡ true
differs i id h = elim (Bool-cases (id == i)) [
  | inl same ↦ absurd (h (sym ((text_has_eq.is_same_iff id i).0 same)))
  | inr other ↦ rw other
]

handle-KeptUntil :
    (end : ℕ) (x : ToastItem) (e : Event) (p : Provider)
    → Apart x.id (e ∷ [])
    → p.clock + time_of (e ∷ []) < end
    → KeptUntil end x p
    → KeptUntil end x (handle e p)
unfolding push dismiss wait
handle-KeptUntil end x (pushed i toast) p (other, _) h (m, k) = (
  (Mem_append p.toasts (record { id = i; toast = toast } ∷ []) x).0 (inl m),
  λ time n. elim ((Mem_append p.timers ((p.clock + 5000, i) ∷ []) (time, x.id)).1 n) [
    | inl old ↦ k time old
    | inr new ↦
        absurd (other (sym (ap (λ (t, j). j) (Mem_one (time, x.id) (p.clock + 5000, i) new))))
  ],
)
handle-KeptUntil end x (dismissed i) p (other, _) h (m, k) =
    ((Mem_filter (λ t. not (t.id == i)) p.toasts x).1 (m, differs i x.id other), k)
handle-KeptUntil end x (waited ms) p apart h (m, k) = (
  Mem-expire (p.clock + ms) p.timers p.toasts x m (λ time n. let late = k time n in omega arith),
  λ time n. k time ((Mem_filter (λ (t, i). ltb (p.clock + ms) t) p.timers (time, x.id)).0 n).0,
)

run-KeptUntil :
    (end : ℕ) (x : ToastItem) (es : List Event) (p : Provider)
    → Apart x.id es
    → p.clock + time_of es < end
    → KeptUntil end x p
    → KeptUntil end x (run es p)
unfolding push dismiss wait
run-KeptUntil end x [] p apart h k = k
run-KeptUntil end x (pushed i toast ∷ es) p (other, apart) h k =
    run-KeptUntil end x es (push i toast p) apart h
      (handle-KeptUntil end x (pushed i toast) p (other, tt) (omega arith) k)
run-KeptUntil end x (dismissed i ∷ es) p (other, apart) h k =
    run-KeptUntil end x es (dismiss i p) apart h
      (handle-KeptUntil end x (dismissed i) p (other, tt) (omega arith) k)
run-KeptUntil end x (waited ms ∷ es) p apart h k =
    run-KeptUntil end x es (wait ms p) apart (omega arith)
      (handle-KeptUntil end x (waited ms) p tt (omega arith) k)

-- A toast that is pushed under an id that no timer has is shown through all events that take less
-- than five seconds, pushes and dismissals of other toasts among them.
pub run-push :
    (id : Text) (toast : Toast) (p : Provider) (es : List Event)
    → ((time : ℕ) → Memᴰ (time, id) p.timers → ⊥)
    → Apart id es
    → time_of es < 5000
    → Memᴰ (record { id = id; toast = toast }) (run es (push id toast p)).toasts
unfolding push
run-push id toast p es fresh apart h =
    let x : ToastItem = record { id = id; toast = toast } in
    (run-KeptUntil (p.clock + 5000) x es (push id toast p) apart (omega arith) (
      (Mem_append p.toasts (x ∷ []) x).0 (inr (Memᴰ.head refl)),
      λ time n. elim ((Mem_append p.timers ((p.clock + 5000, id) ∷ []) (time, id)).1 n) [
        | inl old ↦ absurd (fresh time old)
        | inr new ↦
            let e : time ≡ p.clock + 5000 =
              ap (λ (t, j). t) (Mem_one (time, id) (p.clock + 5000, id) new) in
            omega arith
      ],
    )).0
