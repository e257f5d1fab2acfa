-- ===== src/Ui/Toast.antt =====
-- The notifications: `ToastProvider` of frontend/src/components/ui/Toast.tsx. The random id of a
-- toast is an argument, and `setTimeout` calls back at the first look at the clock at or behind the
-- time that it was set for.
pub mod Expires
pub mod Stays
mod Tests
use agent_os_test.Prelude.{
  ℕ, ◌+◌, Bool, not, Option, List, [], ◌∷◌, ◌++◌, Text, text_has_eq, ◌==◌, leb, ltb, filter,
  if◌then◌else◌,
}

pub data ToastTone : Type 0 where
  success error info : ToastTone

-- `Omit<ToastItem, "id">`
pub record Toast : Type 0 where
  pub title : Text
  pub description : Option Text
  pub tone : ToastTone

pub record ToastItem : Type 0 where
  pub id : Text
  pub toast : Toast

-- The toasts that are shown, the timers that are set, each with its time and the id of its toast,
-- and the milliseconds that have passed.
pub record Provider : Type 0 where
  pub toasts : List ToastItem
  pub timers : List (ℕ × Text)
  pub clock : ℕ

-- `prev.filter((t) => t.id !== id)`
abbrev pub without : Text → List ToastItem → List ToastItem
without id ts = filter (λ t. not (t.id == id)) ts

-- `push`
unfoldable pub push : Text → Toast → Provider → Provider
push id toast p = record p {
  toasts = p.toasts ++ (record { id = id; toast = toast } ∷ []);
  timers = p.timers ++ ((p.clock + 5000, id) ∷ []);
}

-- `dismiss`
unfoldable pub dismiss : Text → Provider → Provider
dismiss id p = record p { toasts = without id p.toasts }

-- The callbacks of the timers that are due.
unfoldable pub expire : ℕ → List (ℕ × Text) → List ToastItem → List ToastItem
expire now [] ts = ts
expire now ((time, id) ∷ timers) ts =
    let rest = expire now timers ts in if leb time now then without id rest else rest

-- Milliseconds pass.
unfoldable pub wait : ℕ → Provider → Provider
unfolding expire
wait ms p = record {
  toasts = expire (p.clock + ms) p.timers p.toasts;
  timers = filter (λ (time, id). ltb (p.clock + ms) time) p.timers;
  clock = p.clock + ms;
}

pub data Event : Type 0 where
  pushed : Text → Toast → Event
  dismissed : Text → Event
  waited : ℕ → Event

abbrev pub handle : Event → Provider → Provider
handle (pushed id toast) p = push id toast p
handle (dismissed id) p = dismiss id p
handle (waited ms) p = wait ms p

abbrev pub run : List Event → Provider → Provider
run [] p = p
run (e ∷ es) p = run es (handle e p)

abbrev pub mounted : Provider
mounted = record { toasts = []; timers = []; clock = 0 }
