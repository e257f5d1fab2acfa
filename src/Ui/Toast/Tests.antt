-- ===== src/Ui/Toast/Tests.antt =====
-- The theorems on toasts, at two of them.
use mathlib.Core.List.{Memᴰ}
use agent_os_test.Prelude.{◌≡◌, none, [], ◌∷◌, List, units, arith}
use agent_os_test.Ui.Toast.{
  Toast, success, info, Event, pushed, dismissed, waited, mounted, push, wait, run,
}
use agent_os_test.Ui.Toast.Expires.{IsTimed, run-wait}
use agent_os_test.Ui.Toast.Stays.{run-push}

abbrev saved : Toast
saved = record { title = units "Saved"; description = none; tone = success }

abbrev cleared : Toast
cleared = record { title = units "Cleared"; description = none; tone = info }

abbrev events : List Event
events = pushed (units "a") saved ∷ waited 3000 ∷ pushed (units "ab") cleared ∷ []

run-wait_example : IsTimed (run events mounted) × ((wait 6000 (run events mounted)).toasts ≡ [])
run-wait_example = run-wait events 6000 (omega arith)

abbrev meanwhile : List Event
meanwhile = waited 3000 ∷ pushed (units "ab") cleared ∷ dismissed (units "ab") ∷ []

run-push_example :
    Memᴰ
      (record { id = units "a"; toast = saved })
      (run meanwhile (push (units "a") saved mounted)).toasts
run-push_example =
    run-push (units "a") saved mounted meanwhile (λ time m. elim m [ ]) ((λ e. cc), ((λ e. cc), tt))
      (omega arith)
