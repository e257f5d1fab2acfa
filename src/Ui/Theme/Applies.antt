-- ===== src/Ui/Theme/Applies.antt =====
-- What the page shows is the theme that was chosen.
use agent_os_test.Prelude.{◌≡◌, ◌↔◌, Bool, true, text_has_eq}
use agent_os_test.Browser.Storage.{Storage}
use agent_os_test.Ui.Theme.{dark, resolve, ThemeProvider}

-- The resolved theme and the class are those of the theme.
pub record IsApplied (prefers_dark : Bool) (p : ThemeProvider) : Type 0 where
  pub resolved : p.resolved_theme ≡ resolve prefers_dark p.theme
  pub is_dark : (p.has_dark_class ≡ true) ↔ (p.resolved_theme ≡ dark)
